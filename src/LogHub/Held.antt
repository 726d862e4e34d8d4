-- ===== src/LogHub/Held.antt =====
-- What `mask_chunk` (backend/src/services/log_hub.rs) holds back: the tail that it keeps is long enough for
-- every value, or the emitted part ends with a line.
use mathlib.Core.Bool.{true≢false, false≢true}
use mathlib.Core.List.{cons≢nil}
use overup.Prelude.{
  append_assoc, ℕ, suc, ◌+◌, ◌-◌, ◌≤◌, ◌<◌, ◌≡◌, refl, sym, ◌∙◌, subst, ap, Bool, true, false, not,
  ◌&&◌, ◌||◌, [], ◌∷◌, ◌++◌, if◌then◌else◌, ltb, leb, ◌==◌, is_empty, arith, Bool-cases, &&_iff,
  ==_iff, ◌⊎◌, inl, inr, Text, byte_len, char_len,
}
use overup.LogHub.{newline, starts_with, occurs, split_floor, split_line, hold_back}

abbrev pub has_line : Text → Bool
has_line [] = false
has_line (c ∷ s) = c == newline || has_line s

abbrev pub ends_line : Text → Bool
ends_line [] = false
ends_line (c ∷ []) = c == newline
ends_line (c ∷ d ∷ s) = ends_line (d ∷ s)

-- The value starts somewhere in `emitted`, with `rest` behind it.
abbrev pub begins : Text → Text → Text → Bool
begins value [] rest = false
begins value (c ∷ e) rest = starts_with value (c ∷ e ++ rest) || begins value e rest

char_pos : (c : ℕ) → 1 ≤ char_len c
char_pos c = ground arith

-- A value that is at the front of `x ++ t` but not of `x` is longer than `x` and has every line feed of it.
longer :
    (v x t : Text)
    → starts_with v (x ++ t) ≡ true
    → starts_with v x ≡ false
    → (byte_len x < byte_len v) × (has_line x ≡ true → has_line v ≡ true)
longer [] x t h n = absurd (true≢false n)
longer (p ∷ ps) [] t h n = (omega (arith, char_pos p), λ e. absurd (false≢true e))
longer (p ∷ ps) (c ∷ x) t h n =
    let same : p == c ≡ true = ((&&_iff (p == c) (starts_with ps (x ++ t))).0 h).0 in
    let more : starts_with ps (x ++ t) ≡ true =
      ((&&_iff (p == c) (starts_with ps (x ++ t))).0 h).1 in
    let less : starts_with ps x ≡ false = rw same at n in
    let (len, line) = longer ps x t more less in
    let equal : p ≡ c = (==_iff p c).0 same in ground (arith, len, line)

-- The emitted part is empty, ends with a line, or leaves a rest that is as long as the value but one.
abbrev pub Held : ℕ → Text → Text → Type 0
Held max_len out rest = (out ≡ []) ⊎ ((ends_line out ≡ true) ⊎ (max_len ≤ suc (byte_len rest)))

pub split_floor_lem :
    (at : ℕ) (s : Text)
    → ((split_floor at s).0 ++ (split_floor at s).1 ≡ s) × (byte_len (split_floor at s).0 ≤ at)
split_floor_lem at [] = (refl, omega arith)
split_floor_lem at (c ∷ s) =
    let (whole, small) = split_floor_lem (at - char_len c) s in
    elim (Bool-cases (ltb at (char_len c))) [
      | inl e ↦ rw e (refl, omega arith)
      | inr e ↦ rw e (
        ap (λ x. c ∷ x) whole,
        (let le : char_len c ≤ at = ground arith in omega (arith, small, le)),
      )
    ]

line_step :
    (c : ℕ) (b a s : Text)
    → b ++ a ≡ s
    → (b ≡ []) ⊎ (ends_line b ≡ true)
    → let q : Text × Text = if is_empty b && not (c == newline) then ([], c ∷ s) else (c ∷ b, a) in
      (q.0 ++ q.1 ≡ c ∷ s) × ((q.0 ≡ []) ⊎ (ends_line q.0 ≡ true))
line_step c [] a s whole side = elim (Bool-cases (c == newline)) [
  | inl e ↦ rw e (ap (λ x. c ∷ x) whole, inr e)
  | inr e ↦ rw e (refl, inl refl)
]
line_step c (d ∷ b) a s whole (inl bad) = absurd (cons≢nil bad)
line_step c (d ∷ b) a s whole (inr e) = (ap (λ x. c ∷ x) whole, inr e)

split_line_lem :
    (s : Text)
    → ((split_line s).0 ++ (split_line s).1 ≡ s)
      × (((split_line s).0 ≡ []) ⊎ (ends_line (split_line s).0 ≡ true))
split_line_lem [] = (refl, inl refl)
split_line_lem (c ∷ s) =
    let (whole, side) = split_line_lem s in
    line_step c (split_line s).0 (split_line s).1 s whole side

byte_len-append : (s t : Text) → byte_len (s ++ t) ≡ byte_len s + byte_len t
byte_len-append [] t = omega arith
byte_len-append (c ∷ s) t = omega (arith, byte_len-append s t)

empty_len : (s : Text) → byte_len s ≤ 0 → s ≡ []
empty_len [] h = refl
empty_len (c ∷ s) h = absurd (omega (arith, char_pos c, h))

ends_line-append : (a l : Text) → ends_line l ≡ true → ends_line (a ++ l) ≡ true
ends_line-append [] l h = h
ends_line-append (c ∷ []) [] h = absurd (false≢true h)
ends_line-append (c ∷ []) (d ∷ l) h = h
ends_line-append (c ∷ d ∷ a) l h = ends_line-append (d ∷ a) l h

Held-none :
    (m : ℕ) (masked early tail rest l : Text)
    → early ++ tail ≡ masked
    → byte_len early ≤ byte_len masked - (m - 1)
    → l ≡ []
    → l ++ rest ≡ tail
    → Held m (early ++ l) rest
Held-none m masked early tail rest l whole small none lines =
    let lens : byte_len early + byte_len tail ≡ byte_len masked =
      sym (byte_len-append early tail) ∙ ap byte_len whole in
    let same : rest ≡ tail = subst (λ x. x ++ rest ≡ tail) none lines in
    let size : byte_len rest ≡ byte_len tail = ap byte_len same in
    elim (Bool-cases (leb m (suc (byte_len rest)))) [
      | inl long ↦ inr (inr (ground (arith, long)))
      | inr short ↦
          (let over : suc (byte_len rest) < m = ground arith in
            let gone : early ≡ [] = empty_len early (omega (arith, small, lens, size, over)) in
            inl (ap (λ x. x ++ l) gone ∙ none))
    ]

-- What is emitted and what is held back are the masked text, in this order, and either nothing is emitted,
-- or it ends with a line feed, or what is held back lacks at most one byte of the longest value.
pub hold_back_lem :
    (max_len : ℕ) (masked : Text)
    → ((hold_back max_len masked).0 ++ (hold_back max_len masked).1 ≡ masked)
      × Held max_len (hold_back max_len masked).0 (hold_back max_len masked).1
hold_back_lem max_len masked =
    let cut = byte_len masked - (max_len - 1) in
    let early = (split_floor cut masked).0 in
    let tail = (split_floor cut masked).1 in
    let (whole, small) = split_floor_lem cut masked in
    let (lines, side) = split_line_lem tail in
    (
      append_assoc early (split_line tail).0 (split_line tail).1
          ∙ ap (λ x. early ++ x) lines
          ∙ whole,
      elim side [
        | inl none_found ↦
            Held-none max_len masked early tail (split_line tail).1 (split_line tail).0 whole small
              none_found lines
        | inr e ↦ inr (inl (ends_line-append early (split_line tail).0 e))
      ],
    )

Held-tail : (m c : ℕ) (o rest : Text) → Held m (c ∷ o) rest → Held m o rest
Held-tail m c o rest (inl e) = absurd (cons≢nil e)
Held-tail m c [] rest h = inl refl
Held-tail m c (d ∷ o) rest (inr h) = inr h

has_line-append : (s t : Text) → has_line s ≡ true → has_line (s ++ t) ≡ true
has_line-append [] t h = absurd (false≢true h)
has_line-append (c ∷ s) t h = ground (arith, has_line-append s t)

ends-has_line : (s : Text) → ends_line s ≡ true → has_line s ≡ true
ends-has_line [] h = h
ends-has_line (c ∷ []) h = ground arith
ends-has_line (c ∷ d ∷ s) h = ground (arith, ends-has_line (d ∷ s) h)

-- Nothing of the emitted part begins a value, whatever comes next, if the value does not occur in what
-- there is.
pub begins-Held :
    (m : ℕ) (v out rest t : Text)
    → byte_len v ≤ m
    → has_line v ≡ false
    → occurs v (out ++ rest) ≡ false
    → Held m out rest
    → begins v out (rest ++ t) ≡ false
begins-Held m v [] rest t size line o h = refl
begins-Held m v (c ∷ out) rest t size line o h =
    let here : starts_with v (c ∷ out ++ rest) ≡ false = ground arith in
    let later : occurs v (out ++ rest) ≡ false = ground arith in
    rw (not_here here, begins-Held m v out rest t size line later (Held-tail m c out rest h)) refl
  where
    not_here :
        starts_with v (c ∷ out ++ rest) ≡ false → starts_with v (c ∷ out ++ (rest ++ t)) ≡ false
    not_here here = elim (Bool-cases (starts_with v (c ∷ out ++ (rest ++ t)))) [
      | inr missed ↦ missed
      | inl found ↦
          (let (len, lines) =
              longer v (c ∷ out ++ rest) t
                (subst (λ x. starts_with v x ≡ true) (sym (append_assoc (c ∷ out) rest t)) found)
                here in
            absurd (elim h [
              | inl e ↦ cons≢nil e
              | inr (inl e) ↦
                  true≢false (
                    sym (lines (has_line-append (c ∷ out) rest (ends-has_line (c ∷ out) e))) ∙ line)
              | inr (inr long) ↦
                  omega (arith, len, size, long, byte_len-append out rest, char_pos c)
            ]))
    ]
