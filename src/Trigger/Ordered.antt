-- ===== src/Trigger/Ordered.antt =====
-- Ordered filter lists with `!` (backend/src/services/trigger_eval.rs, `match_ordered`): the last
-- pattern that applies decides.
use overup.Prelude.{
  Bool, true, false, Option, none, some, List, [], ◌∷◌, Text, ◌≡◌, refl, ◌↔◌, ◌⊎◌, inl, inr, arith,
  All, Bool-cases,
}
use overup.Glob.{glob_match}
use overup.Trigger.{strip_negation, ordered_step, ordered_from, match_ordered}

-- A positive pattern that matches the value.
abbrev pub Selects : Text → Text → Type 0
Selects value pattern = (strip_negation pattern ≡ none) × (glob_match pattern value ≡ true)

-- A pattern that does not exclude the value: positive, or negated and not matching.
abbrev pub Spares : Text → Text → Type 0
Spares value pattern =
    (negated : Text) → strip_negation pattern ≡ some negated → glob_match negated value ≡ false

-- Some positive pattern matches, and no negated pattern behind it does.
abbrev pub Selected : Text → List Text → Type 0
Selected value [] = ⊥
Selected value (p ∷ ps) = (Selects value p × All (Spares value) ps) ⊎ Selected value ps

step_cases :
    (value : Text) (matched : Bool) (o : Option Text) (p : Text)
    → (ordered_step value matched o p ≡ true) ↔ (
        ((o ≡ none) × (glob_match p value ≡ true))
        ⊎ ((matched ≡ true) × ((n : Text) → o ≡ some n → glob_match n value ≡ false)))
unfolding ordered_step
step_cases value matched none p = (
  λ h. elim (Bool-cases (glob_match p value)) [
    | inl g ↦ inl (refl, g)
    | inr g ↦ inr (rw g at h, λ n e. cc)
  ],
  elim [ inl (_, g) ↦ rw g refl | inr (m, _) ↦ ground arith ],
)
step_cases value matched (some n) p = (
  λ h.
      let quiet : glob_match n value ≡ false = ground arith in
      inr (ground arith, λ n' e. let same : n ≡ n' = cc in rw (← same) quiet),
  elim [ inl (e, _) ↦ cc | inr (m, h) ↦ rw (m, h n refl) refl ],
)

ordered_from_iff :
    (matched : Bool) (ps : List Text) (value : Text)
    → (ordered_from matched ps value ≡ true)
      ↔ (((matched ≡ true) × All (Spares value) ps) ⊎ Selected value ps)
unfolding ordered_from
ordered_from_iff matched [] value = (λ h. inl (h, tt), elim [ inl (h, _) ↦ h | inr e ↦ absurd e ])
ordered_from_iff matched (p ∷ ps) value =
    let (to, from) = ordered_from_iff (ordered_step value matched (strip_negation p) p) ps value in
    let (split, join) = step_cases value matched (strip_negation p) p in
    (
      λ h. elim (to h) [
        | inl (now, later) ↦ elim (split now) [
          | inl hit ↦ inr (inl (hit, later))
          | inr (m, spared) ↦ inl (m, (spared, later))
        ]
        | inr s ↦ inr (inr s)
      ],
      elim [
        | inl (m, (spared, later)) ↦ from (inl (join (inr (m, spared)), later))
        | inr (inl (hit, later)) ↦ from (inl (join (inl hit), later))
        | inr (inr s) ↦ from (inr s)
      ],
    )

-- An ordered list lets a value through exactly when some positive pattern matches it and no negated
-- pattern that stands behind that one matches it.
pub match_ordered_iff :
    (patterns : List Text) (value : Text)
    → (match_ordered patterns value ≡ true) ↔ Selected value patterns
unfolding match_ordered
match_ordered_iff patterns value =
    let (to, from) = ordered_from_iff false patterns value in
    (λ h. elim (to h) [ inl (bad, _) ↦ absurd (cc) | inr s ↦ s ], λ s. from (inr s))
