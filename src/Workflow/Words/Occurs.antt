-- ===== src/Workflow/Words/Occurs.antt =====
-- What `find` with slicing, `split_once` of backend/src/services/workflow_parse.rs, gives: the text is cut at the
-- first occurrence.
use overup.Prelude.{
  ℕ, ◌<◌, ◌≡◌, refl, sym, ◌∙◌, ap, inl, inr, Option, none, some, [], ◌∷◌, ◌++◌, ◌==◌, ==_iff,
  Bool-cases, Option-cases, arith, length, length-append, Text,
}
use overup.Workflow.Words.{strip_prefix, split_once}

pub strip_prefix-append : (p s r : Text) → strip_prefix p s ≡ some r → p ++ r ≡ s
unfolding strip_prefix
strip_prefix-append [] s r e = cc
strip_prefix-append (c ∷ p) [] r e = cc
strip_prefix-append (c ∷ p) (d ∷ s) r e = elim (Bool-cases (c == d)) [
  | inl same ↦
      let tail = strip_prefix-append p s r (rw same at e) in
      rw ((==_iff c d).0 same) (ap (λ t. d ∷ t) tail)
  | inr other ↦ cc (rw other at e)
]

-- A prefix of a text is one of each longer text.
pub strip_prefix-longer :
    (p s r x : Text) → strip_prefix p s ≡ some r → strip_prefix p (s ++ x) ≡ some (r ++ x)
unfolding strip_prefix
strip_prefix-longer [] s r x e = ap (λ o. elim o [ none ↦ none | some t ↦ some (t ++ x) ]) e
strip_prefix-longer (c ∷ p) [] r x e = cc
strip_prefix-longer (c ∷ p) (d ∷ s) r x e = elim (Bool-cases (c == d)) [
  | inl same ↦ rw same (strip_prefix-longer p s r x (rw same at e))
  | inr other ↦ cc (rw other at e)
]

-- The cut at the first occurrence puts the text together again, and there is no occurrence before it.
pub record IsCut (needle s before rest : Text) : Type 0 where
  pub whole : before ++ (needle ++ rest) ≡ s
  pub first : split_once needle before ≡ none

pub split_once-cons :
    (needle s : Text) (c : ℕ)
    → split_once needle (c ∷ s) ≡ (elim (strip_prefix needle (c ∷ s)) [
      | some rest ↦ some ([], rest)
      | none ↦ elim (split_once needle s) [
        | none ↦ none
        | some (before, rest) ↦ some (c ∷ before, rest)
      ]
    ])
unfolding split_once
split_once-cons needle s c = refl

some_pair :
    {a b c d : Text}
    → ◌≡◌ {A = Option (Text × Text)} (some (a, b)) (some (c, d))
    → (a ≡ c) × (b ≡ d)
some_pair e = (cc e, cc e)

module _ (n : ℕ) (needle : Text) where
  abbrev full : Text
  full = n ∷ needle

  not_in_nil : split_once full [] ≡ none
  unfolding split_once strip_prefix
  not_in_nil = refl

  IsCut-later :
      (c : ℕ) (s before rest : Text)
      → strip_prefix full (c ∷ s) ≡ none
      → IsCut full s before rest
      → IsCut full (c ∷ s) (c ∷ before) rest
  IsCut-later c s before rest miss cut = record {
    whole = ap (λ t. c ∷ t) cut.whole;
    first = split_once-cons full before c ∙ (elim (Option-cases (strip_prefix full (c ∷ before))) [
      | inl none_here ↦ rw (none_here, cut.first) refl
      | inr (r, early) ↦ cc (
          sym miss
          ∙ ap (strip_prefix full) (sym (ap (λ t. c ∷ t) cut.whole))
          ∙ strip_prefix-longer full (c ∷ before) r (full ++ rest) early)
    ]);
  }

  pub split_once-IsCut :
      (s before rest : Text) → split_once full s ≡ some (before, rest) → IsCut full s before rest
  split_once-IsCut [] before rest e = cc (sym not_in_nil ∙ e)
  split_once-IsCut (c ∷ s) before rest e = elim (Option-cases (strip_prefix full (c ∷ s))) [
    | inr (r, hit) ↦
        let (b, t) = some_pair (rw hit at (sym (split_once-cons full s c) ∙ e)) in
        record {
          whole = rw (← b, ← t) (strip_prefix-append full (c ∷ s) r hit);
          first = rw (← b) not_in_nil;
        }
    | inl miss ↦ elim (Option-cases (split_once full s)) [
      | inl nowhere ↦ cc (rw (miss, nowhere) at (sym (split_once-cons full s c) ∙ e))
      | inr ((b, r), later) ↦
          let (b', t) = some_pair (rw (miss, later) at (sym (split_once-cons full s c) ∙ e)) in
          rw (← b', ← t) (IsCut-later c s b r miss (split_once-IsCut s b r later))
    ]
  ]

  -- What is left is shorter.
  pub IsCut-shorter : (s before rest : Text) → IsCut full s before rest → length rest < length s
  IsCut-shorter s before rest cut = omega (
    arith,
    ap length cut.whole,
    length-append {0} before (full ++ rest),
    length-append {0} full rest,
  )
