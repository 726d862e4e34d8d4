-- ===== src/Plan/Steps.antt =====
-- backend/src/services/pipeline_plan.rs: the steps of a job's plan.
use overup.Prelude.{
  Bool, ◌||◌, ℕ, ◌+◌, Option, none, some, List, [], ◌∷◌, ◌++◌, if◌then◌else◌, not, ◌==◌, Text,
  codes, text_eq,
}
use overup.Workflow.Yaml.{Value, Yaml}
use overup.Workflow.Words.{take_while, decimal}
use overup.Plan.{
  PlannedStep, max_step_run_bytes, truncate_utf8, sanitize_for_notice, plan_working_directory,
  settle, get_text,
}

-- `uses.split('@').next()`
abbrev pub action_of : Text → Text
action_of uses = take_while (λ c. not (c == b'@')) uses

unfoldable pub is_checkout_action : Text → Bool
is_checkout_action uses = text_eq (action_of uses) (codes "actions/checkout")

abbrev pub is_rust_setup : Text → Bool
is_rust_setup action =
    text_eq action (codes "dtolnay/rust-toolchain")
    || text_eq action (codes "actions-rust-lang/setup-rust-toolchain")
    || text_eq action (codes "actions-rs/toolchain")

unfoldable pub setup_action_hint : Text → Option Text
setup_action_hint uses =
    let action = action_of uses in
    if text_eq action (codes "actions/setup-node")
    then some (codes "container: js")
    else if text_eq action (codes "actions/setup-go")
    then some (codes "container: go")
    else if text_eq action (codes "actions/setup-java")
    then some (codes "container: java")
    else if text_eq action (codes "actions/setup-dotnet")
    then some (codes "container: dotnet")
    else if text_eq action (codes "actions/setup-python")
    then some (codes "container: python:3.12")
    else if text_eq action (codes "ruby/setup-ruby")
    then some (codes "container: ruby:3.3")
    else if is_rust_setup action
    then some (codes "container: rust")
    else none

-- What is said of a step that uses an action.
unfoldable pub uses_notice : Text → Text
uses_notice uses =
    if is_checkout_action uses
    then (codes "step `uses: "
        ++ uses
        ++ codes
            "` is a no-op here — your repository is checked out automatically before the job runs")
    else elim (setup_action_hint uses) [
      | some hint ↦
          codes "step `uses: "
          ++ uses
          ++ codes
              "` is not executed; the default job image ships common toolchains — pin this one by adding `"
          ++ hint
          ++ codes "` to the job"
      | none ↦ codes "step `uses: " ++ uses ++ codes "` is not supported yet; skipped"
    ]

abbrev pub step_name : ℕ → Option Text → Text
step_name index (some name) = name
step_name index none = codes "step " ++ decimal (index + 1)

abbrev pub step_shell : Option Text → Text
step_shell none = codes "sh"
step_shell (some shell) = if text_eq shell (codes "bash") then codes "bash" else codes "sh"

-- The directory of the step itself comes before that of the job.
unfoldable pub step_workdir : Option Text → Option Text → List Text → Option Text × List Text
step_workdir none job_default notices = (job_default, notices)
step_workdir (some raw) job_default notices = settle (plan_working_directory raw) notices

abbrev pub put_step : Option PlannedStep → List PlannedStep → List PlannedStep
put_step none steps = steps
put_step (some step) steps = step ∷ steps

module _ (yaml : Yaml) where
  unfoldable pub run_step : ℕ → Value → Text → Option Text → List Text → PlannedStep × List Text
  run_step index step run job_default notices =
      let (workdir, more) =
        step_workdir (get_text yaml step (codes "working-directory")) job_default notices in
      (
        record {
          name = step_name index (get_text yaml step (codes "name"));
          run = truncate_utf8 max_step_run_bytes run;
          shell = step_shell (get_text yaml step (codes "shell"));
          working_directory = workdir;
        },
        more,
      )

  -- What a step gives, by what it uses and what it runs.
  unfoldable pub plan_step :
      ℕ
      → Value
      → Option Text
      → Option Text
      → Option Text
      → List Text
      → Option PlannedStep × List Text
  plan_step index step (some uses) run job_default notices =
      (none, notices ++ uses_notice (sanitize_for_notice uses) ∷ [])
  plan_step index step none none job_default notices = (none, notices)
  plan_step index step none (some run) job_default notices =
      let (planned, more) = run_step index step run job_default notices in (some planned, more)

  -- `for (index, step) in list.iter().enumerate()`
  unfoldable pub plan_steps :
      ℕ → List Value → Option Text → List Text → List PlannedStep × List Text
  plan_steps index [] job_default notices = ([], notices)
  plan_steps index (step ∷ steps) job_default notices =
      let (planned, more) =
        plan_step index step (get_text yaml step (codes "uses")) (get_text yaml step (codes "run"))
          job_default notices in
      let (others, all) = plan_steps (index + 1) steps job_default more in
      (put_step planned others, all)
