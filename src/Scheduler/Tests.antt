-- ===== src/Scheduler/Tests.antt =====
-- The theorems on the scheduler at one waiting job and one idle runner.
use overup.Prelude.{ℕ, ◌≡◌, refl, none, some, List, [], ◌∷◌, codes, arith, All}
use overup.Db.Rows.{Status, in_progress, Stage, Job, Runner, Pipeline, idle}
use overup.Db.Runners.{find_idle_by_ids}
use overup.World.{Effect}
use overup.Handlers.Dependents.{UniqueIds}
use overup.Scheduler.{DispatchOutcome, sent, assign_eligible}
use overup.Scheduler.Assign.{Strangers, only, assign_crosses_workspaces}
use overup.Scheduler.Placed.{Placed}
use overup.Scheduler.Given.{started, assign_eligible-Placed}

abbrev waiting_job : ℕ → Job
waiting_job n = record {
  id = n;
  pipeline_id = 1;
  job_key = codes "build";
  runs_on = [];
  needs = [];
  status = Status.queued;
  conclusion = none;
  stage = Stage.queued;
  runner_id = none;
  attempt = 1;
  exit_code = none;
  error_category = none;
  timeout_seconds = 60;
  log_bytes = 0;
  position = n;
  metrics = none;
  logs_archived_at = none;
  logs_archive_backend = none;
  queued_at = 5;
  assigned_at = none;
  started_at = none;
  finished_at = none;
}

abbrev idle_runner : Runner
idle_runner = record {
  id = 7;
  workspace_id = 2;
  name = codes "r";
  labels = codes "linux" ∷ [];
  status = idle;
  version = none;
  last_seen_at = some 5;
  revoked_at = none;
  draining_at = none;
}

abbrev live : Pipeline
live = record {
  id = 1;
  workspace_id = 1;
  repository_id = 1;
  workflow_id = none;
  number = 1;
  webhook_delivery_id = none;
  status = in_progress;
  conclusion = none;
  timeout_seconds = 100;
  created_at = 1;
  started_at = some 2;
  finished_at = none;
}

abbrev wanting : Job
wanting = record (waiting_job 2) { runs_on = codes " Linux" ∷ [] }

abbrev always_sent : List Effect → Job → ℕ → DispatchOutcome
always_sent es j r = sent

strangers : Strangers wanting live idle_runner
strangers = record {
  waits = refl;
  nowhere = refl;
  no_needs = refl;
  part = refl;
  open_pipeline = refl;
  ready = refl;
  not_draining = refl;
  not_revoked = refl;
  suited = refl;
  foreign = λ e. omega (arith, e);
}

assign_crosses_workspaces_example :
    All
      (λ (k : Job). (k.id ≡ 2) × (k.status ≡ in_progress) × (k.runner_id ≡ some 7))
      (assign_eligible 9 always_sent (7 ∷ []) (only wanting live idle_runner)).tables.jobs
assign_crosses_workspaces_example =
    assign_crosses_workspaces 9 always_sent wanting live idle_runner strangers (λ es k id. refl)

one_job-UniqueIds : UniqueIds (wanting ∷ [])
one_job-UniqueIds j j' i i' e = ground arith

assign_eligible-Placed_example :
    All
      (Placed (started (wanting ∷ [])) (find_idle_by_ids (7 ∷ []) (idle_runner ∷ [])))
      (assign_eligible 9 always_sent (7 ∷ []) (only wanting live idle_runner)).tables.jobs
assign_eligible-Placed_example =
    assign_eligible-Placed 9 always_sent (7 ∷ []) (only wanting live idle_runner) one_job-UniqueIds
