-- ===== src/Plan/Build.antt =====
-- backend/src/services/pipeline_plan.rs, `build_plans`: the plans of all jobs of a workflow file.
use overup.Prelude.{
  Bool, Option, none, some, List, [], ◌∷◌, ◌++◌, if◌then◌else◌, all, is_empty, map, Text, codes,
}
use overup.Workflow.{ParsedJob, ValidationStatus, status, errors, valid, warnings}
use overup.Workflow.Yaml.{Value, Yaml}
use overup.Workflow.Triggers.{is_some}
use overup.Workflow.Parse.{Parsed, document, failed, ParsedWorkflow, parse_and_validate}
use overup.Plan.{
  PlannedStep, Env, JobPlan, PlannedJob, Plans, plans, refused, invalid, no_runnable_jobs,
  extend_env, plan_working_directory, settle, env_map, defaults_working_directory,
}
use overup.Plan.Images.{choose_image, container_image}
use overup.Plan.Steps.{plan_steps}

abbrev pub strategy_notices : ParsedJob → List Text
strategy_notices job =
    if is_some job.strategy
    then codes "matrix strategy is not expanded yet; the job runs once" ∷ []
    else []

abbrev pub uses_job_notice : Text → Text
uses_job_notice uses =
    codes "reusable workflow `" ++ uses ++ codes "` is not supported yet; job produces no steps"

-- `from_str(raw).unwrap_or(Value::Null)`
abbrev pub document_of : Parsed → Value
document_of (document value) = value
document_of (failed message line) = Value.null

-- The workflow's default comes behind that of the job.
unfoldable pub default_workdir : Option Text → Option Text → List Text → Option Text × List Text
default_workdir (some raw) root notices = settle (plan_working_directory raw) notices
default_workdir none (some raw) notices = settle (plan_working_directory raw) notices
default_workdir none none notices = (none, notices)

abbrev pub has_no_steps : PlannedJob → Bool
has_no_steps p = is_empty p.plan.steps

module _ (yaml : Yaml) where
  open yaml use {as_sequence, value_get}

  -- `doc.get("jobs").and_then(|jobs| jobs.get(key))`, or null
  unfoldable pub node_of : Value → Text → Value
  node_of doc key = elim (value_get doc (codes "jobs")) [
    | none ↦ Value.null
    | some jobs ↦ elim (value_get jobs key) [ none ↦ Value.null | some node ↦ node ]
  ]

  unfoldable pub list_of : Value → List Value
  list_of job_node = elim (value_get job_node (codes "steps")) [
    | none ↦ []
    | some steps ↦ elim (as_sequence steps) [ none ↦ [] | some list ↦ list ]
  ]

  -- The steps of a job that calls a workflow, or of one that has a list of them.
  unfoldable pub job_steps :
      Option Text → Value → Option Text → List Text → List PlannedStep × List Text
  job_steps (some uses) job_node job_default notices = ([], notices ++ uses_job_notice uses ∷ [])
  job_steps none job_node job_default notices =
      plan_steps yaml 0 (list_of job_node) job_default notices

module _ (yaml : Yaml) (default_image : Text) (allowlist : List Text) where
  open yaml use {value_get}

  unfoldable pub job_plan : Value → Env → ParsedJob → Value → JobPlan
  job_plan doc root_env job job_node =
      let (image, chosen) =
        choose_image default_image allowlist job.runs_on (container_image yaml job_node)
          (strategy_notices job) in
      let (job_default, settled) =
        default_workdir (defaults_working_directory yaml job_node)
          (defaults_working_directory yaml doc) chosen in
      let (steps, notices) = job_steps yaml job.uses job_node job_default settled in
      record {
        image = image;
        env = extend_env root_env (env_map yaml (value_get job_node (codes "env")));
        steps = steps;
        environment = job.environment;
        notices = notices;
      }

  unfoldable pub plan_job : Value → Env → ParsedJob → PlannedJob
  plan_job doc root_env job = record {
    key = job.key;
    name = job.name;
    runs_on = job.runs_on;
    needs = job.needs;
    plan = job_plan doc root_env job (node_of yaml doc job.key);
    position = job.position;
  }

  abbrev pub refuse_empty : List PlannedJob → Plans
  refuse_empty planned =
      if all has_no_steps planned then refused no_runnable_jobs else plans planned

  -- The plans of the parsed jobs, from the document.
  unfoldable pub plan_jobs : Value → List ParsedJob → Plans
  plan_jobs doc [] = refused no_runnable_jobs
  plan_jobs doc (job ∷ jobs) =
      refuse_empty (map (plan_job doc (env_map yaml (value_get doc (codes "env")))) (job ∷ jobs))

  unfoldable pub plan_parsed : ValidationStatus → ParsedWorkflow → Value → Plans
  plan_parsed errors parsed doc = refused invalid
  plan_parsed valid parsed doc = plan_jobs doc parsed.jobs
  plan_parsed warnings parsed doc = plan_jobs doc parsed.jobs

  unfoldable pub build_plans : (Text → Parsed) → Text → Plans
  build_plans from_str raw_content =
      let parsed = parse_and_validate yaml from_str raw_content in
      plan_parsed (status parsed.diagnostics) parsed (document_of (from_str raw_content))
