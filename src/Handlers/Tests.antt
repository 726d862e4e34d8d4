-- ===== src/Handlers/Tests.antt =====
-- The theorems on the handlers at a pipeline of three jobs: one runs, one waits for it and one is alone.
use overup.Prelude.{ℕ, ◌≡◌, refl, Bool, false, none, some, List, [], ◌∷◌, codes, All}
use overup.Db.Rows.{
  Status, in_progress, completed, failure, Stage, running, Job, Runner, Pipeline, busy,
}
use overup.Db.Jobs.History.{Each}
use overup.World.{Effect, World}
use overup.Handlers.{maybe_finalize, timeout_pipeline, orphan_runner_jobs}
use overup.Handlers.Finalize.{Ended, maybe_finalize_idempotent}
use overup.Handlers.Stopped.{Stopped}
use overup.Handlers.Ends.{timeout_pipeline-Ended}
use overup.Handlers.Orphans.{IsHandled, orphan_runner_jobs-Handled}

abbrev waiting_job : ℕ → Job
waiting_job n = record {
  id = n;
  pipeline_id = 1;
  job_key = codes "build";
  runs_on = [];
  needs = [];
  status = Status.queued;
  conclusion = none;
  stage = Stage.queued;
  runner_id = none;
  attempt = 1;
  exit_code = none;
  error_category = none;
  timeout_seconds = 60;
  log_bytes = 0;
  position = n;
  metrics = none;
  logs_archived_at = none;
  logs_archive_backend = none;
  queued_at = 5;
  assigned_at = none;
  started_at = none;
  finished_at = none;
}

abbrev running_job : ℕ → Job
running_job n = record (waiting_job n) {
  status = in_progress;
  stage = running;
  runner_id = some 7;
  assigned_at = some 6;
  started_at = some 6;
}

abbrev busy_runner : Runner
busy_runner = record {
  id = 7;
  workspace_id = 1;
  name = codes "r";
  labels = [];
  status = busy;
  version = none;
  last_seen_at = some 5;
  revoked_at = none;
  draining_at = none;
}

abbrev live : Pipeline
live = record {
  id = 1;
  workspace_id = 1;
  repository_id = 1;
  workflow_id = none;
  number = 1;
  webhook_delivery_id = none;
  status = in_progress;
  conclusion = none;
  timeout_seconds = 100;
  created_at = 1;
  started_at = some 2;
  finished_at = none;
}

abbrev three : World
three = record {
  tables = record {
    jobs =
        running_job 1
        ∷ record (waiting_job 2) { job_key = codes "test"; needs = codes "build" ∷ [] }
        ∷ record (waiting_job 3) { job_key = codes "lint" }
        ∷ [];
    runners = busy_runner ∷ [];
    pipelines = live ∷ [];
  };
  effects = [];
}

abbrev failed : World
failed = record three {
  tables = record three.tables {
    jobs =
        record (running_job 1) { status = completed; conclusion = some failure }
        ∷ record (waiting_job 2) { job_key = codes "test"; needs = codes "build" ∷ [] }
        ∷ [];
  };
}

maybe_finalize_idempotent_example :
    maybe_finalize 30 1 (maybe_finalize 20 1 three) ≡ maybe_finalize 20 1 three
maybe_finalize_idempotent_example = maybe_finalize_idempotent 20 30 1 three

timeout_pipeline-Ended_example :
    All (Stopped 1) (timeout_pipeline 20 live three).tables.jobs
    × All (Ended 1) (timeout_pipeline 20 live three).tables.pipelines
timeout_pipeline-Ended_example = timeout_pipeline-Ended 20 live three refl

abbrev nobody : List Effect → ℕ → Bool
nobody es r = false

orphan_runner_jobs-Handled_example :
    Each (IsHandled 7) three.tables.jobs (orphan_runner_jobs 20 7 three).tables.jobs
orphan_runner_jobs-Handled_example = orphan_runner_jobs-Handled 20 7 three
