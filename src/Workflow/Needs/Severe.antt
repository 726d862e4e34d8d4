-- ===== src/Workflow/Needs/Severe.antt =====
-- All that `validate_needs` (backend/src/services/workflow_parse.rs) reports are errors.
use overup.Prelude.{
  ◌≡◌, refl, true, inl, inr, List, [], ◌∷◌, ◌++◌, map, All, Text, text_eq, contains, Bool-cases,
}
use overup.Workflow.{Diagnostic, is_error, ParsedJob}
use overup.Workflow.Needs.{
  Links, link_need, link_needs, link_jobs, Outcome, out_of_fuel, circular, searched,
  cycle_diagnostics, validate_needs,
}

abbrev pub AreErrors : List Diagnostic → Type 0
AreErrors ds = All (λ d. is_error d ≡ true) ds

AreErrors-append : (xs ys : List Diagnostic) → AreErrors xs → AreErrors ys → AreErrors (xs ++ ys)
AreErrors-append [] ys h k = k
AreErrors-append (x ∷ xs) ys (h, hs) k = (h, AreErrors-append xs ys hs k)

link_need-AreErrors :
    (ids : List Text) (key : Text) (links : Links) (need : Text)
    → AreErrors links.pushed
    → AreErrors (link_need ids key links need).pushed
unfolding link_need
link_need-AreErrors ids key links need h = elim (Bool-cases (text_eq key need)) [
  | inl e ↦ rw e (AreErrors-append links.pushed _ h (refl, tt))
  | inr e ↦ rw e (elim (Bool-cases (contains ids need)) [
    | inl f ↦ rw f h
    | inr f ↦ rw f (AreErrors-append links.pushed _ h (refl, tt))
  ])
]

link_needs-AreErrors :
    (ids : List Text) (key : Text) (needs : List Text) (links : Links)
    → AreErrors links.pushed
    → AreErrors (link_needs ids key needs links).pushed
unfolding link_needs
link_needs-AreErrors ids key [] links h = h
link_needs-AreErrors ids key (n ∷ needs) links h =
    link_needs-AreErrors ids key needs (link_need ids key links n)
      (link_need-AreErrors ids key links n h)

link_jobs-AreErrors :
    (ids : List Text) (jobs : List ParsedJob) (links : Links)
    → AreErrors links.pushed
    → AreErrors (link_jobs ids jobs links).pushed
unfolding link_jobs
link_jobs-AreErrors ids [] links h = h
link_jobs-AreErrors ids (j ∷ jobs) links h =
    link_jobs-AreErrors ids jobs (link_needs ids j.key j.needs links)
      (link_needs-AreErrors ids j.key j.needs links h)

cycle-AreErrors : (out : Outcome) → AreErrors (cycle_diagnostics out)
cycle-AreErrors out_of_fuel = tt
cycle-AreErrors (circular n) = (refl, tt)
cycle-AreErrors (searched c) = tt

pub validate_needs-AreErrors : (jobs : List ParsedJob) → AreErrors (validate_needs jobs)
unfolding validate_needs
validate_needs-AreErrors jobs =
    AreErrors-append _ _ (link_jobs-AreErrors (map (λ j. j.key) jobs) jobs _ tt) (cycle-AreErrors _)
