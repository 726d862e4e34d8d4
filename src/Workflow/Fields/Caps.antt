-- ===== src/Workflow/Fields/Caps.antt =====
-- What the lists of filter patterns (backend/src/services/workflow_parse.rs) are bounded by.
use overup.Prelude.{
  ℕ, zero, suc, ◌≤◌, ◌≡◌, refl, inl, inr, Bool, true, not, ◌&&◌, Option, none, some, List, [], ◌∷◌,
  leb, ltb, All, Bool-cases, arith, is_empty, length, take, filter, Text, byte_len,
}
use overup.Workflow.Yaml.{Value, null, bool, number, string, sequence, mapping, tagged, Yaml}
use overup.Workflow.Fields.{
  max_filter_patterns, max_filter_pattern_len, keep_patterns, capped_patterns, filter_patterns,
  strs,
}

-- What the evaluation of filters reads of a stored list.
abbrev pub is_pattern : Text → Bool
is_pattern p = not (is_empty p) && leb (byte_len p) max_filter_pattern_len

-- A list that is read as it is stored: at most 50 patterns, none empty and none over 256 bytes.
abbrev pub IsStorable : List Text → Type 0
IsStorable ps = (length ps ≤ max_filter_patterns) × All (λ p. is_pattern p ≡ true) ps

pub length-take : {A : Type 0} (n : ℕ) (xs : List A) → length (take n xs) ≤ n
length-take zero xs = omega arith
length-take (suc n) [] = omega arith
length-take (suc n) (x ∷ xs) = omega (arith, length-take n xs)

pub take-all : {A : Type 0} (n : ℕ) (xs : List A) → length xs ≤ n → take n xs ≡ xs
take-all zero [] h = refl
take-all zero (x ∷ xs) h = absurd (omega arith)
take-all (suc n) [] h = refl
take-all (suc n) (x ∷ xs) h = rw (take-all n xs (omega arith)) refl

pub filter-all :
    {A : Type 0} (p : A → Bool) (xs : List A) → All (λ x. p x ≡ true) xs → filter p xs ≡ xs
filter-all p [] h = refl
filter-all p (x ∷ xs) (h, hs) = rw (h, filter-all p xs hs) refl

keep_patterns-length : (path : Text) (ps : List Text) → length (keep_patterns path ps).0 ≤ length ps
unfolding keep_patterns
keep_patterns-length path [] = omega arith
keep_patterns-length path (p ∷ ps) = ground (arith, keep_patterns-length path ps)

keep_patterns-All :
    (path : Text) (ps : List Text) → All (λ p. is_pattern p ≡ true) (keep_patterns path ps).0
unfolding keep_patterns
keep_patterns-All path [] = tt
keep_patterns-All path (p ∷ ps) = elim (Bool-cases (is_empty p)) [
  | inl e ↦ rw e (keep_patterns-All path ps)
  | inr e ↦ elim (Bool-cases (ltb max_filter_pattern_len (byte_len p))) [
    | inl long ↦ rw (e, long) (keep_patterns-All path ps)
    | inr fits ↦ rw (e, fits) (ground (arith, e, fits), keep_patterns-All path ps)
  ]
]

capped_patterns-IsStorable :
    (path : Text) (raw : List Text) → IsStorable (capped_patterns path raw).0
unfolding capped_patterns
capped_patterns-IsStorable path raw = (
  omega (
    arith,
    keep_patterns-length path (take max_filter_patterns raw),
    length-take max_filter_patterns raw,
  ),
  keep_patterns-All path (take max_filter_patterns raw),
)

module _ (yaml : Yaml) where
  pub filter_patterns-IsStorable :
      (v : Option Value) (path : Text) → IsStorable (filter_patterns yaml v path).0
  unfolding filter_patterns
  filter_patterns-IsStorable none path = (omega arith, tt)
  filter_patterns-IsStorable (some (string s)) path = capped_patterns-IsStorable path (s ∷ [])
  filter_patterns-IsStorable (some (sequence xs)) path =
      capped_patterns-IsStorable path (strs yaml xs)
  filter_patterns-IsStorable (some null) path = (omega arith, tt)
  filter_patterns-IsStorable (some (bool b)) path = (omega arith, tt)
  filter_patterns-IsStorable (some (number n)) path = (omega arith, tt)
  filter_patterns-IsStorable (some (mapping es)) path = (omega arith, tt)
  filter_patterns-IsStorable (some (tagged t v)) path = (omega arith, tt)
