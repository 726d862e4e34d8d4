-- ===== src/LogHub/Masked.antt =====
-- The whole log of a job under `mask_chunk` (backend/src/services/log_hub.rs): no value is in it, even where
-- chunks meet.
use mathlib.Core.Bool.{true≢false}
use overup.Prelude.{
  All-In, append-nil, append_assoc, In, ℕ, ◌≤◌, ◌≡◌, refl, sym, ◌∙◌, subst, ap, Bool, true, false,
  ◌||◌, Option, none, some, List, [], ◌∷◌, ◌++◌, ltb, ◌==◌, arith, All, Bool-cases, &&_iff, inl,
  inr, Text, byte_len,
}
use overup.LogHub.{
  Stream, MaskState, Chunk, starts_with, occurs, apply_masks, hold_back, mask_state,
}
use overup.LogHub.Replace.{StarFree, Maskable, starts_with-masks, apply_masks-hides}
use overup.LogHub.Held.{Held, has_line, begins, hold_back_lem, begins-Held}

or_assoc : (a b c : Bool) → (a || (b || c)) ≡ ((a || b) || c)
or_assoc a b c = ground arith

pub or_false : (a b : Bool) → (a || b) ≡ false → (a ≡ false) × (b ≡ false)
or_false a b h = ground arith

pub occurs-begins : (v e rest : Text) → occurs v (e ++ rest) ≡ (begins v e rest || occurs v rest)
occurs-begins v [] rest = refl
occurs-begins v (c ∷ e) rest =
    rw (occurs-begins v e rest)
      (or_assoc (starts_with v (c ∷ (e ++ rest))) (begins v e rest) (occurs v rest))

begins-append :
    (v e f rest : Text) → begins v (e ++ f) rest ≡ (begins v e (f ++ rest) || begins v f rest)
begins-append v [] f rest = refl
begins-append v (c ∷ e) f rest =
    rw (append_assoc e f rest, begins-append v e f rest)
      (or_assoc (starts_with v (c ∷ (e ++ (f ++ rest)))) (begins v e (f ++ rest)) (begins v f rest))

starts_with-behind :
    (values : List Text) (v x s t : Text)
    → StarFree v
    → starts_with v (x ++ (apply_masks values s ++ t)) ≡ true
    → starts_with v (x ++ (s ++ t)) ≡ true
starts_with-behind values v [] s t f h = starts_with-masks values v s t f h
starts_with-behind values [] (c ∷ x) s t f h = refl
starts_with-behind values (p ∷ ps) (c ∷ x) s t (f, fs) h =
    let both = (&&_iff (p == c) (starts_with ps (x ++ (apply_masks values s ++ t)))).0 h in
    rw (both.0, starts_with-behind values ps x s t fs both.1) refl

-- What begins in the emitted part begins there over the text that was masked, too.
begins-masks :
    (values : List Text) (v e s t : Text)
    → StarFree v
    → begins v e (s ++ t) ≡ false
    → begins v e (apply_masks values s ++ t) ≡ false
begins-masks values v [] s t f h = refl
begins-masks values v (c ∷ e) s t f h =
    let (here, rest) = or_false (starts_with v (c ∷ e ++ (s ++ t))) (begins v e (s ++ t)) h in
    rw (not_here here, begins-masks values v e s t f rest) refl
  where
    not_here :
        starts_with v (c ∷ e ++ (s ++ t)) ≡ false
        → starts_with v (c ∷ e ++ (apply_masks values s ++ t)) ≡ false
    not_here here = elim (Bool-cases (starts_with v (c ∷ e ++ (apply_masks values s ++ t)))) [
      | inl found ↦
          absurd (true≢false (sym (starts_with-behind values v (c ∷ e) s t f found) ∙ here))
      | inr missed ↦ missed
    ]

-- The value can be masked, is on one line, and is no longer than what is held back.
abbrev pub Secret : ℕ → Text → Type 0
Secret max_len v = Maskable v × (has_line v ≡ false) × (byte_len v ≤ max_len)

-- Of the text `e` that is emitted so far and the carry: no value begins in `e`, whatever comes behind the
-- carry, and none is in the carry.
abbrev pub Sealed : Text → Text → Text → Type 0
Sealed e carry v = ((t : Text) → begins v e (carry ++ t) ≡ false) × (occurs v carry ≡ false)

cut-Sealed :
    (values : List Text) (max_len : ℕ) (e carry text v out rest : Text)
    → Secret max_len v
    → occurs v (apply_masks values (carry ++ text)) ≡ false
    → Sealed e carry v
    → out ++ rest ≡ apply_masks values (carry ++ text)
    → Held max_len out rest
    → Sealed (e ++ out) rest v
cut-Sealed values max_len e carry text v out rest ((n, f), line, size) hidden (calm, clean) whole
      held =
    (
      quiet,
      (or_false (begins v out rest) (occurs v rest) (sym (occurs-begins v out rest) ∙ none_in)).1,
    )
  where
    none_in : occurs v (out ++ rest) ≡ false
    none_in = subst (λ x. occurs v x ≡ false) (sym whole) hidden

    before : (t : Text) → begins v e (out ++ (rest ++ t)) ≡ false
    before t =
        subst (λ x. begins v e x ≡ false) (ap (λ x. x ++ t) (sym whole) ∙ append_assoc out rest t)
          (begins-masks values v e (carry ++ text) t f (
            subst (λ x. begins v e x ≡ false) (sym (append_assoc carry text t)) (calm (text ++ t))))

    quiet : (t : Text) → begins v (e ++ out) (rest ++ t) ≡ false
    quiet t =
        rw
          (
            begins-append v e out (rest ++ t),
            before t,
            begins-Held max_len v out rest t size line none_in held,
          )
          refl

-- The chunks that reach the log, one text, and the state after them.
abbrev pub Input : Type 0
Input = ℕ × Stream × Text × (Option ℕ × Option Text)

abbrev pub text_of : Option Chunk → Text
text_of none = []
text_of (some c) = c.text

unfoldable pub mask_all : List Input → MaskState → Text × MaskState
mask_all [] st = ([], st)
mask_all ((seq, stream, text, place) ∷ inputs) st =
    let (st', chunk) = mask_state seq stream text place st in
    let (rest, last) = mask_all inputs st' in (text_of chunk ++ rest, last)

pub step-Sealed :
    (seq : ℕ) (stream : Stream) (text : Text) (place : Option ℕ × Option Text) (st : MaskState)
    (e v : Text)
    → All Maskable st.values
    → In v st.values
    → Secret st.max_len v
    → Sealed e st.carry v
    → let (st', chunk) = mask_state seq stream text place st in
      Sealed (e ++ text_of chunk) st'.carry v
      × (st'.values ≡ st.values)
      × (st'.max_len ≡ st.max_len)
step-Sealed seq stream text place st e v masks i secret sealed =
    elim (Bool-cases (ltb seq st.next_seq)) [
      | inl old ↦ rw old (rw (append-nil e) sealed, refl, refl)
      | inr new ↦
          (let masked = apply_masks st.values (st.carry ++ text) in
            let (whole, held) = hold_back_lem st.max_len masked in
            let hidden =
              All-In _ st.values v i (apply_masks-hides st.values (st.carry ++ text) masks) in
            rw new (
              cut-Sealed st.values st.max_len e st.carry text v (hold_back st.max_len masked).0
                  (hold_back st.max_len masked).1 secret hidden sealed whole held,
              refl,
              refl,
            ))
    ]
