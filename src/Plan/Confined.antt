-- ===== src/Plan/Confined.antt =====
-- What the plans of backend/src/services/pipeline_plan.rs hand on to the runners.
use overup.Prelude.{◌≤◌, ◌≡◌, false, List, All, all, map, Text, byte_len}
use overup.Workflow.{ParsedJob}
use overup.Workflow.Yaml.{Yaml}
use overup.Plan.{PlannedStep, JobPlan, PlannedJob, max_step_run_bytes}
use overup.Plan.Limits.{IsShort, IsPlanned}
use overup.Plan.Permitted.{IsPermitted}
use overup.Plan.Build.{has_no_steps}

-- A step whose command is short and whose directory is a path in the workspace or an expression.
pub record IsConfinedStep (s : PlannedStep) : Type 0 where
  pub short : byte_len s.run ≤ max_step_run_bytes
  pub workdir : IsPlanned s.working_directory

-- A plan that a runner may be handed.
pub record IsConfined (default_image : Text) (allowlist : List Text) (plan : JobPlan) : Type 0 where
  pub image : IsPermitted default_image allowlist plan.image
  pub env : IsShort plan.env
  pub steps : All IsConfinedStep plan.steps

-- What a plan takes over from the job that it is made of.
abbrev pub outline : PlannedJob → Text × List Text
outline p = (p.key, p.needs)

abbrev pub outline_of : ParsedJob → Text × List Text
outline_of j = (j.key, j.needs)

module _ (yaml : Yaml) (default_image : Text) (allowlist : List Text) where
  -- Plans that are confined, of the jobs in their order, some with a step.
  abbrev pub ArePlans : List ParsedJob → List PlannedJob → Type 0
  ArePlans jobs ps =
      All (λ (p : PlannedJob). IsConfined default_image allowlist p.plan) ps
      × (map outline ps ≡ map outline_of jobs)
      × (all has_no_steps ps ≡ false)
