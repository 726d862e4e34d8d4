-- ===== src/Trigger/Filters.antt =====
-- The dimensions of the filters of backend/src/services/trigger_eval.rs, each stated on its own: names,
-- and changed paths.
use mathlib.Core.Bool.{false≢true}
use overup.Prelude.{
  Exists, any_iff, Bool, true, false, Option, none, some, List, [], ◌∷◌, Text, codes, ◌≡◌, ◌≢◌,
  refl, sym, subst, ◌∙◌, ◌↔◌, ◌⊎◌, inl, inr, arith, if◌then◌else◌, ◌&&◌, not, Bool-cases, any,
  is_empty,
}
use overup.Trigger.{
  Json, run, skip, SkipReason, path_filtered, Decision, match_ordered, patterns, evaluate_paths,
}

-- A name passes the lists of its dimension: `only` wins over `ignore`.
abbrev pub Passes : List Text → List Text → Text → Type 0
Passes only ignore name =
    ((only ≢ []) × (match_ordered only name ≡ true))
    ⊎ ((only ≡ []) × (ignore ≢ []) × (match_ordered ignore name ≡ false))

abbrev pub NoneOf : List Text → List Text → Type 0
NoneOf xs ys = (xs ≡ []) × (ys ≡ [])

pub empty_iff : (xs : List Text) → (is_empty xs ≡ true) ↔ (xs ≡ [])
empty_iff [] = ground arith
empty_iff (x ∷ xs) = ground arith

not-true : (b : Bool) → (not b ≡ true) ↔ (b ≡ false)
not-true b = ground arith

-- One changed file counts: it matches `paths`, or, with no `paths`, it is not in `paths-ignore`.
abbrev pub Counts : List Text → List Text → List Text → Type 0
Counts only ignore changed =
    ((only ≢ []) × Exists (λ p. match_ordered only p ≡ true) changed)
    ⊎ ((only ≡ []) × Exists (λ p. match_ordered ignore p ≡ false) changed)

-- The path dimension over its two lists: no path filters, an unknown diff, or one changed file that
-- counts.
abbrev pub PathsPass : List Text → List Text → Option (List Text) → Type 0
PathsPass only ignore changed_paths =
    NoneOf only ignore
    ⊎ (changed_paths ≡ none)
    ⊎ ((changed : List Text) × (changed_paths ≡ some changed) × Counts only ignore changed)

pub if_run_iff : (b : Bool) (r : SkipReason) → ((if b then run else skip r) ≡ run) ↔ (b ≡ true)
if_run_iff b r = ground arith

module _ (only ignore changed : List Text) where
  Counts-iff :
      ((if not (is_empty only)
          then any (λ p. match_ordered only p) changed
          else any (λ p. not (match_ordered ignore p)) changed)
        ≡ true)
      ↔ Counts only ignore changed
  Counts-iff =
      let (to, from) =
        any_iff (λ p. match_ordered only p) (λ p. match_ordered only p ≡ true)
          (λ x. (λ e. e, λ e. e)) changed in
      let (to', from') =
        any_iff (λ p. not (match_ordered ignore p)) (λ p. match_ordered ignore p ≡ false)
          (λ x. not-true _) changed in
      let (is_nil, nil_is) = empty_iff only in
      elim (Bool-cases (is_empty only)) [
        | inl nil ↦ rw nil (
          λ e. inr (is_nil nil, to' e),
          elim [ inl (ne, _) ↦ absurd (ne (is_nil nil)) | inr (_, x) ↦ from' x ],
        )
        | inr cons ↦ rw cons (
          λ e. inl (λ n. false≢true (sym cons ∙ nil_is n), to e),
          elim [ inl (_, x) ↦ from x | inr (n, _) ↦ absurd (false≢true (sym cons ∙ nil_is n)) ],
        )
      ]

pub both_empty : (xs ys : List Text) → (is_empty xs && is_empty ys ≡ true) ↔ NoneOf xs ys
both_empty [] [] = (λ _. (refl, refl), λ _. refl)
both_empty [] (y ∷ ys) = (λ e. absurd (false≢true e), λ (_, e). cc)
both_empty (x ∷ xs) ys = (λ e. absurd (false≢true e), λ (e, _). cc)

module _ (json : Json) (filters : json.Value) where
  pub paths_iff :
      (changed_paths : Option (List Text))
      → (evaluate_paths json filters changed_paths ≡ run)
        ↔ PathsPass
            (patterns json filters (codes "paths"))
            (patterns json filters (codes "pathsIgnore"))
            changed_paths
  unfolding evaluate_paths
  paths_iff none = (λ _. inr (inl refl), λ _. ground arith)
  paths_iff (some changed) =
      let only = patterns json filters (codes "paths") in
      let ignore = patterns json filters (codes "pathsIgnore") in
      let (none_of, of_none) = both_empty only ignore in
      let (counted, count) = Counts-iff only ignore changed in
      elim (Bool-cases (is_empty only && is_empty ignore)) [
        | inl both ↦ rw both (λ _. inl (none_of both), λ _. refl)
        | inr some_filter ↦ rw some_filter (
          λ e. inr (inr (changed, refl, counted ((if_run_iff _ path_filtered).0 e))),
          elim [
            | inl nothing ↦ absurd (false≢true (sym some_filter ∙ of_none nothing))
            | inr (inl bad) ↦ absurd (cc)
            | inr (inr (ch, e, x)) ↦
                let same : ch ≡ changed = cc in
                (if_run_iff _ path_filtered).1 (count (subst (Counts only ignore) same x))
          ],
        )
      ]

-- The dimension of a name: its own lists decide, or both are empty and so is the other dimension.
abbrev pub NamePass : List Text → List Text → List Text → List Text → Text → Type 0
NamePass only ignore other_only other_ignore name =
    Passes only ignore name ⊎ (NoneOf only ignore × NoneOf other_only other_ignore)

pub name_gate :
    (only ignore : List Text) (others : Bool) (name : Text) (d : Decision) (r : SkipReason)
    → ((if not (is_empty only)
          then if not (match_ordered only name) then skip r else d
          else if not (is_empty ignore)
          then if match_ordered ignore name then skip r else d
          else if others
          then skip r
          else d)
        ≡ run)
      ↔ ((Passes only ignore name ⊎ (NoneOf only ignore × (others ≡ false))) × (d ≡ run))
name_gate (x ∷ xs) ignore others name d r =
    (λ e. (inl (inl (λ n. cc, ground arith)), ground arith), λ (p, e). ground arith)
name_gate [] (y ∷ ys) others name d r =
    (λ e. (inl (inr (refl, (λ n. cc), ground arith)), ground arith), λ (p, e). ground arith)
name_gate [] [] others name d r =
    (λ e. (inr ((refl, refl), ground arith), ground arith), λ (p, e). ground arith)
