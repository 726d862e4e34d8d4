-- ===== src/Workflow/Parse/Tests.antt =====
-- The parser on a workflow of two jobs, and the theorem on what it accepts at that workflow.
use overup.Prelude.{◌≡◌, refl, sym, ◌∙◌, Text, codes}
use overup.Workflow.{valid, status, say_if}
use overup.Workflow.Yaml.{
  Value, Entries, end, entry, string, mapping, sequence, cons, nil, key_name,
}
use overup.Workflow.Plain.{plain}
use overup.Workflow.Budget.{push_items, push_entries, push_children, walk, check_budget}
use overup.Workflow.Needs.{
  validate_needs, link_jobs, link_needs, link_need, push_edge, successors, search_jobs, search_from,
  color_of, push_open, weight,
}
use overup.Workflow.Fields.{is_ident, key_names, listed, string_or_list}
use overup.Workflow.Triggers.{
  on_value, event_names, triggers_of, extract_triggers, stored_filters, extract_trigger_filters,
}
use overup.Workflow.Inputs.{inputs_of, extract_dispatch_inputs}
use overup.Workflow.Jobs.{
  warn_unknown, read_environment, has_bad_matrix, check_steps, read_job, read_body, read_named,
  read_entry, read_jobs, jobs_in, jobs_of, extract_jobs,
}
use overup.Workflow.Files.{
  defaults_run_working_directory, read_working_directory, step_refs, steps_refs, job_refs,
  jobs_refs, detect_file_refs,
}
use overup.Workflow.Parse.{
  Parsed, document, metadata_of, warn_top_level, read_root, workflow_of, read_mapping,
  read_budgeted, read_parsed, parse_and_validate,
}
use overup.Workflow.Parse.Accepted.{IsBounded, IsRunnable, parse_and_validate-IsRunnable}

abbrev steps : Value
steps = sequence (cons (mapping (entry (string (codes "run")) (string (codes "make")) end)) nil)

abbrev job : Entries → Value
job more = mapping (
    entry (string (codes "runs-on")) (string (codes "linux"))
      (entry (string (codes "steps")) steps more))

abbrev root : Value
root = mapping (
    entry (string (codes "on")) (string (codes "push")) (
      entry (string (codes "jobs"))
        (mapping (
          entry (string (codes "build")) (job end) (
            entry (string (codes "test"))
              (job (entry (string (codes "needs")) (string (codes "build")) end)) end)))
        end))

abbrev from_str : Text → Parsed
from_str content = document root

it_is_valid : status (parse_and_validate plain from_str (codes "on: push")).diagnostics ≡ valid
unfolding parse_and_validate read_parsed read_budgeted read_mapping workflow_of read_root
    warn_top_level metadata_of status say_if check_budget walk push_children push_entries push_items
    key_names key_name extract_triggers triggers_of on_value event_names extract_jobs jobs_of
    jobs_in read_jobs read_entry read_named read_body read_job check_steps has_bad_matrix
    read_environment warn_unknown string_or_list listed is_ident validate_needs link_jobs link_needs
    link_need push_edge successors search_jobs search_from color_of push_open weight
    extract_dispatch_inputs inputs_of extract_trigger_filters stored_filters detect_file_refs
    jobs_refs job_refs steps_refs step_refs read_working_directory defaults_run_working_directory
it_is_valid = refl

parse_and_validate-IsRunnable_example :
    IsBounded from_str (codes "on: push")
    × IsRunnable plain (parse_and_validate plain from_str (codes "on: push"))
parse_and_validate-IsRunnable_example =
    parse_and_validate-IsRunnable plain from_str (codes "on: push") (λ e. cc (sym it_is_valid ∙ e))
