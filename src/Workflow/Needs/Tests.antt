-- ===== src/Workflow/Needs/Tests.antt =====
-- The theorem on `validate_needs` at a workflow with a diamond, and runs on a cycle.
use overup.Prelude.{◌≡◌, ◌↔◌, refl, none, List, [], ◌∷◌, Text, codes}
use overup.Workflow.{ParsedJob, error, report}
use overup.Workflow.Needs.{
  validate_needs, link_jobs, link_needs, link_need, push_edge, successors, search_jobs, search_from,
  color_of, push_open, weight, circular_message, needs_path, unknown_message,
}
use overup.Workflow.Needs.Acyclic.{IsAcyclic}
use overup.Workflow.Needs.Valid.{Needs, AllKnown, validate_needs_iff}

abbrev job : Text → List Text → ParsedJob
job key needs = record {
  key = key;
  name = none;
  runs_on = [];
  needs = needs;
  uses = none;
  strategy = none;
  environment = none;
  step_count = 1;
  position = 0;
}

abbrev diamond : List ParsedJob
diamond =
    job (codes "a") []
    ∷ job (codes "b") (codes "a" ∷ [])
    ∷ job (codes "c") (codes "a" ∷ [])
    ∷ job (codes "d") (codes "b" ∷ codes "c" ∷ codes "b" ∷ [])
    ∷ []

abbrev ring : List ParsedJob
ring =
    job (codes "a") (codes "c" ∷ [])
    ∷ job (codes "b") (codes "a" ∷ [])
    ∷ job (codes "c") (codes "b" ∷ [])
    ∷ []

diamond_is_accepted : validate_needs diamond ≡ []
unfolding validate_needs link_jobs link_needs link_need push_edge successors search_jobs search_from
    color_of push_open weight
diamond_is_accepted = refl

ring_is_reported :
    validate_needs ring ≡ report error (circular_message (codes "a")) (needs_path (codes "a")) ∷ []
unfolding validate_needs link_jobs link_needs link_need push_edge successors search_jobs search_from
    color_of push_open weight
ring_is_reported = refl

unknown_is_reported :
    validate_needs (job (codes "a") (codes "x" ∷ []) ∷ [])
    ≡ report error (unknown_message (codes "a") (codes "x")) (needs_path (codes "a")) ∷ []
unfolding validate_needs link_jobs link_needs link_need push_edge successors search_jobs search_from
    color_of push_open weight
unknown_is_reported = refl

validate_needs_iff_example :
    (validate_needs diamond ≡ []) ↔ (AllKnown diamond × IsAcyclic (Needs diamond))
validate_needs_iff_example = validate_needs_iff diamond
