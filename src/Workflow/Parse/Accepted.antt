-- ===== src/Workflow/Parse/Accepted.antt =====
-- What `parse_and_validate` (backend/src/services/workflow_parse.rs) promises of a workflow that it does not find in
-- error.
use overup.Prelude.{
  ◌≤◌, ◌≡◌, ◌≢◌, refl, ap, Bool, true, false, Option, none, some, List, [], ◌∷◌, if◌then◌else◌,
  is_empty, ltb, arith, Text, byte_len,
}
use overup.Workflow.{Diagnostic, errors, status, is_error}
use overup.Workflow.Yaml.{Value, Entries, Yaml}
use overup.Workflow.Errors.{
  HasNoError, HasNoError-append, HasNoError-say_if, HasNoError-said, HasNoError-nil,
  HasNoError-status,
}
use overup.Workflow.Budget.{
  Verdict, out_of_fuel, too_many, too_deep, within, diagnostic_of, check_budget, max_nodes,
  max_depth,
}
use overup.Workflow.Budget.Size.{size, height, cut_tags}
use overup.Workflow.Budget.Walk.{check_budget_iff}
use overup.Workflow.Needs.{validate_needs}
use overup.Workflow.Needs.Acyclic.{IsAcyclic}
use overup.Workflow.Needs.Valid.{Needs, AllKnown, validate_needs_iff}
use overup.Workflow.Needs.Severe.{validate_needs-AreErrors}
use overup.Workflow.Triggers.{on_value, triggers_of, extract_triggers}
use overup.Workflow.Jobs.{extract_jobs}
use overup.Workflow.Jobs.Sound.{AreSound, extract_jobs-AreSound}
use overup.Workflow.Parse.{
  Parsed, document, failed, ParsedWorkflow, max_workflow_file_bytes, read_root, workflow_of,
  read_mapping, read_budgeted, read_parsed, too_large, parse_and_validate,
}

-- The jobs and the triggers of a workflow that can run.
pub record IsRunnable (yaml : Yaml) (w : ParsedWorkflow) : Type 0 where
  pub triggers : w.triggers ≢ []
  pub jobs : AreSound yaml w.jobs
  pub known : AllKnown w.jobs
  pub acyclic : IsAcyclic (Needs w.jobs)

-- The file is small enough, and so is what is left of the document that the YAML parser read once its tags
-- are cut off; what stands at a tag is not bounded.
pub record IsBounded (from_str : Text → Parsed) (content : Text) : Type 0 where
  pub bytes : byte_len content ≤ max_workflow_file_bytes
  pub value : Value
  pub read : from_str content ≡ document value
  pub nodes : size (cut_tags value) ≤ max_nodes
  pub depth : height (cut_tags value) ≤ max_depth

is_empty-nil : {A : Type 0} (xs : List A) → is_empty xs ≡ false → xs ≢ []
is_empty-nil [] e f = cc e
is_empty-nil (x ∷ xs) e f = cc f

abbrev is_error_in : Option Diagnostic → Bool
is_error_in none = false
is_error_in (some d) = is_error d

diagnostic_of-error : (v : Verdict) (d : Diagnostic) → diagnostic_of v ≡ some d → is_error d ≡ true
diagnostic_of-error out_of_fuel d e = cc e
diagnostic_of-error too_many d e = cc (ap is_error_in e)
diagnostic_of-error too_deep d e = cc (ap is_error_in e)
diagnostic_of-error within d e = cc e

within_bytes :
    (content : Text)
    → ltb max_workflow_file_bytes (byte_len content) ≡ false
    → byte_len content ≤ max_workflow_file_bytes
within_bytes content e = ground arith

module _ (yaml : Yaml) where
  triggers_of-lem :
      (on : Option Value) → HasNoError (triggers_of yaml on).1 → (triggers_of yaml on).0 ≢ []
  unfolding triggers_of
  triggers_of-lem none e = absurd (HasNoError-said _ _ refl e)
  triggers_of-lem (some on) e =
      let (said, _) = HasNoError-append _ _ e in is_empty-nil _ (HasNoError-say_if _ _ _ said)

  workflow_of-IsRunnable :
      (content : Text) (root : Entries)
      → HasNoError (workflow_of yaml content root).diagnostics
      → IsRunnable yaml (workflow_of yaml content root)
  unfolding workflow_of read_root extract_triggers
  workflow_of-IsRunnable content root e =
      let (_, e1) = HasNoError-append _ _ e in
      let (triggers, e2) = HasNoError-append _ _ e1 in
      let (jobs, e3) = HasNoError-append _ _ e2 in
      let (needs, _) = HasNoError-append _ _ e3 in
      let parsed = (extract_jobs yaml root).0 in
      let (known, acyclic) =
        (validate_needs_iff parsed).0
          (HasNoError-nil (validate_needs parsed) (validate_needs-AreErrors parsed) needs) in
      record {
        triggers = triggers_of-lem (on_value yaml root) triggers;
        jobs = extract_jobs-AreSound yaml root jobs;
        known = known;
        acyclic = acyclic;
      }

  read_mapping-IsRunnable :
      (content : Text) (root : Option Entries)
      → HasNoError (read_mapping yaml content root).diagnostics
      → IsRunnable yaml (read_mapping yaml content root)
  unfolding read_mapping
  read_mapping-IsRunnable content none e = absurd (HasNoError-said _ _ refl e)
  read_mapping-IsRunnable content (some root) e = workflow_of-IsRunnable content root e

  -- The budget reports errors only.
  check_budget-error :
      (value : Value) (d : Diagnostic) → check_budget value ≡ some d → is_error d ≡ true
  unfolding check_budget
  check_budget-error value d e = diagnostic_of-error _ d e

  read_budgeted-lem :
      (content : Text) (value : Value) (budget : Option Diagnostic)
      → check_budget value ≡ budget
      → HasNoError (read_budgeted yaml content value budget).diagnostics
      → (check_budget value ≡ none) × IsRunnable yaml (read_budgeted yaml content value budget)
  unfolding read_budgeted
  read_budgeted-lem content value (some d) b e =
      absurd (HasNoError-said d [] (check_budget-error value d b) e)
  read_budgeted-lem content value none b e =
      (b, read_mapping-IsRunnable content (yaml.as_mapping value) e)

  module _ (from_str : Text → Parsed) (content : Text) where
    read_parsed-lem :
        (parsed : Parsed)
        → byte_len content ≤ max_workflow_file_bytes
        → from_str content ≡ parsed
        → HasNoError (read_parsed yaml content parsed).diagnostics
        → IsBounded from_str content × IsRunnable yaml (read_parsed yaml content parsed)
    unfolding read_parsed
    read_parsed-lem (failed message line) small p e = absurd (HasNoError-said _ _ refl e)
    read_parsed-lem (document value) small p e =
        let (budget, runs) = read_budgeted-lem content value _ refl e in
        let (nodes, depth) = (check_budget_iff value).0 budget in
        (record { bytes = small; value = value; read = p; nodes = nodes; depth = depth }, runs)

    sized-lem :
        (large : Bool)
        → ltb max_workflow_file_bytes (byte_len content) ≡ large
        → HasNoError
            (if large then too_large else read_parsed yaml content (from_str content)).diagnostics
        → IsBounded from_str content
          × IsRunnable yaml
              (if large then too_large else read_parsed yaml content (from_str content))
    sized-lem true l e = absurd (HasNoError-said _ _ refl e)
    sized-lem false l e = read_parsed-lem (from_str content) (within_bytes content l) refl e

    -- A workflow whose status is not `errors` comes from a file of at most 512 KiB, and of its document at most
    -- 20000 nodes and 32 levels are left once whatever stands at a tag is cut off, which is not bounded. It
    -- has a trigger and from 1 to 100 jobs, each with a valid id, at most 100 steps, and no steps where it
    -- calls a workflow; what the jobs need are jobs of it, and no job leads back to itself through what it
    -- needs.
    pub parse_and_validate-IsRunnable :
        status (parse_and_validate yaml from_str content).diagnostics ≢ errors
        → IsBounded from_str content × IsRunnable yaml (parse_and_validate yaml from_str content)
    unfolding parse_and_validate
    parse_and_validate-IsRunnable accepted = sized-lem _ refl (HasNoError-status _ accepted)
