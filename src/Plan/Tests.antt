-- ===== src/Plan/Tests.antt =====
-- The planner on a workflow of one job, and the theorems on plans at that workflow.
use overup.Prelude.{◌≡◌, ◌≢◌, ◌↔◌, refl, true, false, Option, none, some, [], ◌∷◌, All, Text, codes}
use overup.Workflow.{errors, status, say_if}
use overup.Workflow.Yaml.{Value, end, entry, string, bool, mapping, sequence, cons, nil, key_name}
use overup.Workflow.Plain.{plain}
use overup.Workflow.Words.{includes, strip_prefix, split_once}
use overup.Workflow.Budget.{push_items, push_entries, push_children, walk, check_budget}
use overup.Workflow.Needs.{
  validate_needs, link_jobs, link_needs, link_need, push_edge, successors, search_jobs, search_from,
  color_of, push_open, weight,
}
use overup.Workflow.Fields.{is_ident, key_names, listed, string_or_list}
use overup.Workflow.Triggers.{
  on_value, event_names, triggers_of, extract_triggers, stored_filters, extract_trigger_filters,
}
use overup.Workflow.Inputs.{inputs_of, extract_dispatch_inputs}
use overup.Workflow.Jobs.{
  warn_unknown, read_environment, has_bad_matrix, check_steps, read_job, read_body, read_named,
  read_entry, read_jobs, jobs_in, jobs_of, extract_jobs,
}
use overup.Workflow.Files.{
  defaults_run_working_directory, read_working_directory, step_refs, steps_refs, job_refs,
  jobs_refs, detect_file_refs, read_text, read_raw, found_path,
}
use overup.Workflow.Parse.{
  Parsed, document, metadata_of, warn_top_level, read_root, workflow_of, read_mapping,
  read_budgeted, read_parsed, parse_and_validate,
}
use overup.Protocol.{normalize_relative_path}
use overup.Plan.{PlannedJob, refused, invalid, no_runnable_jobs, plan_working_directory, carried}
use overup.Plan.Steps.{plan_steps}
use overup.Plan.Build.{
  document_of, node_of, list_of, job_steps, job_plan, plan_job, plan_jobs, plan_parsed, build_plans,
}
use overup.Plan.Workdirs.{at, resolve_step_workdir}
use overup.Plan.Empty.{IsFound, RunsNothing, build_plans-refused_iff}
use overup.Plan.Dispatched.{IsSafe, resolve_step_workdir-IsSafe, resolve_step_workdir-planned}

abbrev step : Value
step = mapping (
    entry (string (codes "run")) (string (codes "make"))
      (entry (string (codes "working-directory")) (string (codes "./sub/")) end))

abbrev root : Value → Value
root key = mapping (
    entry (string (codes "on")) (string (codes "push")) (
      entry (string (codes "env")) (mapping (entry (string (codes "CI")) (bool true) end)) (
        entry (string (codes "jobs"))
          (mapping (
            entry key
              (mapping (
                entry (string (codes "runs-on")) (string (codes "Ubuntu-22.04")) (
                  entry (string (codes "container")) (string (codes "rust"))
                    (entry (string (codes "steps")) (sequence (cons step nil)) end))))
              end))
          end)))

abbrev from_str : Text → Parsed
from_str content = document (root (string (codes "build")))

-- A job whose key is the boolean `true`.
abbrev odd : Text → Parsed
odd content = document (root (bool true))

abbrev planned : PlannedJob
planned = record {
  key = codes "build";
  name = none;
  runs_on = codes "Ubuntu-22.04" ∷ [];
  needs = [];
  plan = record {
    image = codes "catthehacker/ubuntu:rust-22.04";
    env = (codes "CI", codes "true") ∷ [];
    steps =
        record {
          name = codes "step 1";
          run = codes "make";
          shell = codes "sh";
          working_directory = some (codes "sub");
        }
        ∷ [];
    environment = none;
    notices = codes "toolchain `rust` resolved to image `catthehacker/ubuntu:rust-22.04`" ∷ [];
  };
  position = 0;
}

-- The plan of a job whose key is the boolean `true` is looked for under the string: it is lost.
bool_key_is_lost :
    build_plans plain (codes "debian") [] odd (codes "on: push") ≡ refused no_runnable_jobs
unfolding parse_and_validate read_parsed read_budgeted read_mapping workflow_of read_root
    warn_top_level metadata_of status say_if check_budget walk push_children push_entries push_items
    key_names key_name extract_triggers triggers_of on_value event_names extract_jobs jobs_of
    jobs_in read_jobs read_entry read_named read_body read_job check_steps has_bad_matrix
    read_environment warn_unknown string_or_list listed is_ident validate_needs link_jobs link_needs
    link_need push_edge successors search_jobs search_from color_of push_open weight
    extract_dispatch_inputs inputs_of extract_trigger_filters stored_filters detect_file_refs
    jobs_refs job_refs steps_refs step_refs read_working_directory defaults_run_working_directory
    node_of list_of job_steps job_plan plan_job plan_jobs plan_parsed build_plans plan_steps
    read_text read_raw split_once strip_prefix found_path normalize_relative_path
bool_key_is_lost = refl

build-IsFound :
    All
      (IsFound plain (document_of (from_str (codes "on: push"))))
      (parse_and_validate plain from_str (codes "on: push")).jobs
unfolding parse_and_validate read_parsed read_budgeted read_mapping workflow_of read_root
    warn_top_level metadata_of status say_if check_budget walk push_children push_entries push_items
    key_names key_name extract_triggers triggers_of on_value event_names extract_jobs jobs_of
    jobs_in read_jobs read_entry read_named read_body read_job check_steps has_bad_matrix
    read_environment warn_unknown string_or_list listed is_ident validate_needs link_jobs link_needs
    link_need push_edge successors search_jobs search_from color_of push_open weight
    extract_dispatch_inputs inputs_of extract_trigger_filters stored_filters detect_file_refs
    jobs_refs job_refs steps_refs step_refs read_working_directory defaults_run_working_directory
    node_of list_of job_steps job_plan plan_job plan_jobs plan_parsed build_plans plan_steps
    read_text read_raw split_once strip_prefix found_path normalize_relative_path
build-IsFound = (refl, tt)

build_plans-refused_iff_example :
    ((build_plans plain (codes "debian") [] from_str (codes "on: push") ≡ refused invalid)
      ↔ (status (parse_and_validate plain from_str (codes "on: push")).diagnostics ≡ errors))
    × ((build_plans plain (codes "debian") [] from_str (codes "on: push")
          ≡ refused no_runnable_jobs)
        ↔ ((status (parse_and_validate plain from_str (codes "on: push")).diagnostics ≢ errors)
            × All
                (RunsNothing plain (document_of (from_str (codes "on: push"))))
                (parse_and_validate plain from_str (codes "on: push")).jobs))
build_plans-refused_iff_example =
    build_plans-refused_iff plain (codes "debian") [] from_str (codes "on: push") build-IsFound

abbrev lookup : Text → Text → Option Text
lookup context name = some (codes "../escape")

resolve_step_workdir-IsSafe_example :
    IsSafe (resolve_step_workdir lookup (some (codes "${{ vars.DIR }}")))
resolve_step_workdir-IsSafe_example =
    resolve_step_workdir-IsSafe lookup (some (codes "${{ vars.DIR }}"))

sub_is_carried : plan_working_directory (codes "./sub/") ≡ carried (codes "sub")
unfolding plan_working_directory normalize_relative_path strip_prefix split_once
sub_is_carried = refl

no_expression : includes (codes "${{") (codes "./sub/") ≡ false
unfolding split_once strip_prefix
no_expression = refl

resolve_step_workdir-planned_example :
    resolve_step_workdir lookup (some (codes "sub")) ≡ at (codes "sub")
resolve_step_workdir-planned_example =
    resolve_step_workdir-planned lookup (codes "./sub/") (codes "sub") no_expression sub_is_carried
