-- ===== src/LogHub/Log.antt =====
-- The log of a job from the registration of its secrets to the flush (backend/src/services/log_hub.rs).
use mathlib.Core.Bool.{false≢true}
use overup.Prelude.{
  All-append, Option, some, ◌+◌, All-In, append-nil, append_assoc, ◌≤◌, ◌≡◌, refl, sym, ◌∙◌, subst,
  ap, Bool, true, false, none, List, [], ◌∷◌, ◌++◌, leb, filter, is_empty, arith, All, In,
  Bool-cases, inl, inr, Text, byte_len,
}
use overup.LogHub.{
  MaskState, min_mask_len, occurs, entry, longest, max, register_masks, mask_state, mask_chunk,
  finish_job,
}
use overup.LogHub.Replace.{StarFree, Maskable}
use overup.LogHub.Held.{has_line, begins}
use overup.LogHub.Masked.{Secret, Sealed, Input, text_of, step-Sealed, occurs-begins}

-- What happens to the entry of a job while it runs: secrets are registered, and chunks come in.
pub data LogEvent : Type 0 where
  register : List Text → LogEvent
  chunk : Input → LogEvent

-- The text that reaches the log, and the entry after the events.
unfoldable pub follow : List LogEvent → Option MaskState → Text × Option MaskState
follow [] st = ([], st)
follow (register values ∷ events) st = follow events (register_masks values st)
follow (chunk (seq, stream, text, place) ∷ events) st =
    let (st', emitted) = mask_chunk seq stream text place st in
    let (rest, last) = follow events st' in (text_of emitted ++ rest, last)

-- No value that the events register has a star in it.
abbrev pub StarFreeLog : List LogEvent → Type 0
StarFreeLog [] = Unit
StarFreeLog (register values ∷ events) = All StarFree values × StarFreeLog events
StarFreeLog (chunk input ∷ events) = StarFreeLog events

abbrev is_kept : Text → Bool
is_kept v = leb min_mask_len (byte_len v)

kept-Maskable : (values : List Text) → All StarFree values → All Maskable (filter is_kept values)
kept-Maskable [] h = tt
kept-Maskable (v ∷ values) (f, h) = elim (Bool-cases (is_kept v)) [
  | inl k ↦ rw k ((not_empty v k, f), kept-Maskable values h)
  | inr k ↦ rw k (kept-Maskable values h)
]
  where
    not_empty : (v : Text) → is_kept v ≡ true → is_empty v ≡ false
    not_empty [] k = absurd (false≢true k)
    not_empty (c ∷ v) k = refl

kept-In :
    (values : List Text) (v : Text) → is_kept v ≡ true → In v values → In v (filter is_kept values)
kept-In [] v k i = absurd i
kept-In (x ∷ values) v k (inl e) = rw (subst (λ y. is_kept y ≡ true) e k) (inl e)
kept-In (x ∷ values) v k (inr i) = elim (Bool-cases (is_kept x)) [
  | inl kept ↦ rw kept (inr (kept-In values v k i))
  | inr dropped ↦ rw dropped (kept-In values v k i)
]

longest_le : (values : List Text) (v : Text) → In v values → byte_len v ≤ longest values
longest_le [] v i = absurd i
longest_le (x ∷ values) v (inl e) = (let same = ap byte_len e in ground (arith, same))
longest_le (x ∷ values) v (inr i) = ground (arith, longest_le values v i)

In-nonempty : (values : List Text) (v : Text) → In v values → is_empty values ≡ false
In-nonempty [] v i = absurd i
In-nonempty (x ∷ values) v i = refl

Sealed-hides : (e carry v : Text) → Sealed e carry v → occurs v (e ++ carry) ≡ false
Sealed-hides e carry v (calm, clean) =
    let quiet = subst (λ x. begins v e x ≡ false) (append-nil carry) (calm []) in
    occurs-begins v e carry ∙ rw (quiet, clean) refl

In-left : (xs ys : List Text) (v : Text) → In v xs → In v (xs ++ ys)
In-left [] ys v i = absurd i
In-left (x ∷ xs) ys v (inl e) = inl e
In-left (x ∷ xs) ys v (inr i) = inr (In-left xs ys v i)

In-right : (xs ys : List Text) (v : Text) → In v ys → In v (xs ++ ys)
In-right [] ys v i = i
In-right (x ∷ xs) ys v i = inr (In-right xs ys v i)

-- The entry masks the value.
abbrev Masks : Text → MaskState → Type 0
Masks v st = All Maskable st.values × In v st.values × Secret st.max_len v

-- The entry after a registration that keeps something.
abbrev grown : List Text → MaskState → MaskState
grown values st = record st {
  max_len = max st.max_len (longest (filter is_kept values));
  values = st.values ++ filter is_kept values;
  generation = st.generation + 1;
}

grown-Masks :
    (v : Text) (values : List Text) (st : MaskState)
    → All StarFree values
    → Masks v st
    → Masks v (grown values st)
grown-Masks v values st stars (masks, i, (m, line, size)) = (
  All-append Maskable st.values (filter is_kept values) masks (kept-Maskable values stars),
  In-left st.values (filter is_kept values) v i,
  (m, line, ground arith),
)

-- A registration changes nothing, or lets the entry grow.
register-some :
    (values : List Text) (st : MaskState) (P : Option MaskState → Type 0)
    → P (some st)
    → P (some (grown values st))
    → P (register_masks values (some st))
unfolding register_masks
register-some values st P same more = elim (Bool-cases (is_empty (filter is_kept values))) [
  | inl e ↦ rw e same
  | inr e ↦ rw e more
]

-- What is emitted over the events, and the entry after them.
abbrev IsSealed : Text → Text → Text × Option MaskState → Type 0
IsSealed v e (out, last) = Sealed (e ++ out) (entry last).carry v

follow-Sealed :
    (v : Text) (events : List LogEvent) (st : MaskState) (e : Text)
    → StarFreeLog events
    → Masks v st
    → Sealed e st.carry v
    → IsSealed v e (follow events (some st))
unfolding follow mask_chunk
follow-Sealed v [] st e stars masks sealed = rw (append-nil e) sealed
follow-Sealed v (register values ∷ events) st e (now, stars) masks sealed =
    register-some values st (λ o. IsSealed v e (follow events o))
      (follow-Sealed v events st e stars masks sealed)
      (follow-Sealed v events (grown values st) e stars (grown-Masks v values st now masks) sealed)
follow-Sealed v (chunk (seq, stream, text, place) ∷ events) st e stars (masks, i, secret) sealed =
    let (st', emitted) = mask_state seq stream text place st in
    let (next, values, len) = step-Sealed seq stream text place st e v masks i secret sealed in
    rw (sym (append_assoc e (text_of emitted) (follow events (some st')).0)) (
      follow-Sealed v events st' (e ++ text_of emitted) stars
        (
          subst (All Maskable) (sym values) masks,
          subst (In v) (sym values) i,
          subst (λ m. Secret m v) (sym len) secret,
        )
        next)

-- The flush gives out the carry.
flush-carry : (last : Option MaskState) → text_of (finish_job last).1 ≡ (entry last).carry
unfolding finish_job
flush-carry none = refl
flush-carry (some st) = carried st.carry refl
  where
    carried : (c : Text) → st.carry ≡ c → text_of (finish_job (some st)).1 ≡ st.carry
    carried [] e = rw e refl
    carried (x ∷ c) e = rw e refl

-- An entry, or none, from which nothing is held back, and whose values can be masked.
abbrev pub IsQuiet : Option MaskState → Type 0
IsQuiet st = ((entry st).carry ≡ []) × All Maskable (entry st).values

-- A value of at least the minimal length and without a star or a line feed, once it is registered for a job
-- whose earlier output is flushed, is nowhere in what the log gets from then on, the flush at the end
-- included: however the runner cuts its output into chunks, whichever of them it repeats, and whatever
-- else is registered before, with it or meanwhile, as long as no registered value has a star. A value with
-- a line feed may be among those; it is not claimed to be hidden itself.
pub log-hides :
    (st : Option MaskState) (values : List Text) (events : List LogEvent) (v : Text)
    → IsQuiet st
    → All StarFree values
    → StarFreeLog events
    → In v values
    → has_line v ≡ false
    → min_mask_len ≤ byte_len v
    → let (out, last) = follow events (register_masks values st) in
      occurs v (out ++ text_of (finish_job last).1) ≡ false
unfolding register_masks
log-hides st values events v (empty, old) stars later i line size =
    let kept = filter is_kept values in
    let k : is_kept v ≡ true = ground arith in
    let ik = kept-In values v k i in
    let fresh_masks = kept-Maskable values stars in
    let m = All-In Maskable kept v ik fresh_masks in
    let long = longest_le kept v ik in
    let now = grown values (entry st) in
    let fits : byte_len v ≤ now.max_len = ground (arith, long) in
    let sealed : Sealed [] now.carry v = rw empty (λ t. refl, m.0) in
    rw (In-nonempty kept v ik, flush-carry (follow events (some now)).1)
      (Sealed-hides (follow events (some now)).0 (entry (follow events (some now)).1).carry v (
        follow-Sealed v events now [] later
          (
            All-append Maskable (entry st).values kept old fresh_masks,
            In-right (entry st).values kept v ik,
            (m, line, fits),
          )
          sealed))
