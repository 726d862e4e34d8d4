-- ===== src/Db/Jobs.antt =====
-- backend/src/db/pipeline_jobs.rs: the statements on the `pipeline_jobs` table. Each is an `Update`;
-- `now` is the time of the statement.
pub mod Valid
pub mod History
use overup.Prelude.{
  ℕ, ◌+◌, ◌≤◌, ◌<◌, Bool, true, false, not, ◌&&◌, ◌||◌, Option, none, some, List, [], ◌∷◌, ltb, leb,
  ◌==◌, if◌then◌else◌, filter, any, Text, contains, text_eq, take, map,
}
use overup.Db.Rows.{
  Status, in_progress, completed, JobConclusion, success, failure, cancelled, skipped, Stage,
  preparing, assigned, done, ErrorCategory, runner_lost, Job, Pipeline, is_queued, is_in_progress,
  is_completed, is_assigned, equals, is_null, coalesce,
}
use overup.Db.Statements.{Update}

abbrev pub member : ℕ → List ℕ → Bool
member n ids = any (λ m. m == n) ids

-- The job half of `claim_for_runner`.
abbrev pub claim_job : ℕ → ℕ → ℕ → Update Job
claim_job now job_id runner_id = record {
  guard = λ j. j.id == job_id && is_queued j.status && is_null j.runner_id;
  change = λ j. record j {
    status = in_progress;
    stage = assigned;
    runner_id = some runner_id;
    assigned_at = some now;
  };
}

abbrev requeued : Job → Job
requeued j = record j {
  status = Status.queued;
  stage = Stage.queued;
  runner_id = none;
  assigned_at = none;
}

abbrev pub unclaim : ℕ → Update Job
unclaim job_id = record {
  guard = λ j. j.id == job_id && is_in_progress j.status && is_assigned j.stage;
  change = requeued;
}

abbrev pub ack : ℕ → ℕ → ℕ → Update Job
ack now job_id runner_id = record {
  guard = λ j.
      j.id == job_id
      && equals j.runner_id runner_id
      && is_in_progress j.status
      && is_assigned j.stage;
  change = λ j. record j { stage = preparing; started_at = coalesce j.started_at now };
}

-- `assigned_at < now() - cutoff`; a NULL is not stale.
abbrev pub older_than : Option ℕ → ℕ → ℕ → Bool
older_than none now secs = false
older_than (some t) now secs = ltb (t + secs) now

abbrev pub revert_unacked : ℕ → ℕ → Update Job
revert_unacked now cutoff_secs = record {
  guard = λ j.
      is_in_progress j.status && is_assigned j.stage && older_than j.assigned_at now cutoff_secs;
  change = requeued;
}

abbrev pub set_stage : ℕ → ℕ → Stage → Update Job
set_stage job_id runner_id stage = record {
  guard = λ j. j.id == job_id && equals j.runner_id runner_id && is_in_progress j.status;
  change = λ j. record j { stage = stage };
}

abbrev replace {ℓ} : {A : Type ℓ} → Option A → Option A → Option A
replace none old = old
replace (some a) old = some a

abbrev pub finish_from_runner :
    ℕ → ℕ → ℕ → JobConclusion → Option ℕ → Option ErrorCategory → Option Text → Update Job
finish_from_runner now job_id runner_id conclusion exit_code error_category metrics = record {
  guard = λ j. j.id == job_id && equals j.runner_id runner_id && is_in_progress j.status;
  change = λ j. record j {
    status = completed;
    conclusion = some conclusion;
    stage = done;
    exit_code = exit_code;
    error_category = error_category;
    metrics = replace metrics j.metrics;
    started_at = coalesce j.started_at now;
    finished_at = some now;
  };
}

abbrev pub force_finish : ℕ → ℕ → JobConclusion → Option ErrorCategory → Update Job
force_finish now job_id conclusion error_category = record {
  guard = λ j. j.id == job_id && not (is_completed j.status);
  change = λ j. record j {
    status = completed;
    conclusion = some conclusion;
    stage = done;
    error_category = error_category;
    started_at = coalesce j.started_at now;
    finished_at = some now;
  };
}

-- A queued job that ends without having run.
abbrev closed : ℕ → JobConclusion → Job → Job
closed now conclusion j = record j {
  status = completed;
  conclusion = some conclusion;
  stage = done;
  finished_at = some now;
}

abbrev pub mark_skipped : ℕ → List ℕ → Update Job
mark_skipped now ids = record {
  guard = λ j. member j.id ids && is_queued j.status;
  change = closed now skipped;
}

abbrev pub cancel_one_queued : ℕ → ℕ → Update Job
cancel_one_queued now job_id = record {
  guard = λ j. j.id == job_id && is_queued j.status;
  change = closed now cancelled;
}

abbrev pub cancel_queued : ℕ → ℕ → Update Job
cancel_queued now pipeline_id = record {
  guard = λ j. j.pipeline_id == pipeline_id && is_queued j.status;
  change = closed now cancelled;
}

abbrev retried : Job → Job
retried j = record j {
  status = Status.queued;
  stage = Stage.queued;
  runner_id = none;
  assigned_at = none;
  started_at = none;
  attempt = j.attempt + 1;
}

abbrev lost : ℕ → Job → Job
lost now j = record j {
  status = completed;
  conclusion = some failure;
  stage = done;
  error_category = some runner_lost;
  started_at = coalesce j.started_at now;
  finished_at = some now;
}

-- The two statements of `requeue_orphans`, and of `requeue_all_orphans`, which names no runner.
abbrev pub requeue_orphans : ℕ → Update Job
requeue_orphans runner_id = record {
  guard = λ j. equals j.runner_id runner_id && is_in_progress j.status && ltb j.attempt 2;
  change = retried;
}

abbrev pub fail_orphans : ℕ → ℕ → Update Job
fail_orphans now runner_id = record {
  guard = λ j. equals j.runner_id runner_id && is_in_progress j.status;
  change = lost now;
}

abbrev pub requeue_all_orphans : Update Job
requeue_all_orphans = record {
  guard = λ j. is_in_progress j.status && ltb j.attempt 2;
  change = retried;
}

abbrev pub fail_all_orphans : ℕ → Update Job
fail_all_orphans now = record { guard = λ j. is_in_progress j.status; change = lost now }

abbrev pub add_log_bytes : ℕ → ℕ → Update Job
add_log_bytes job_id delta = record {
  guard = λ j. j.id == job_id;
  change = λ j. record j { log_bytes = j.log_bytes + delta };
}

abbrev pub mark_logs_archived : ℕ → ℕ → Text → Update Job
mark_logs_archived now job_id storage_backend = record {
  guard = λ j. j.id == job_id && is_null j.logs_archived_at;
  change =
      λ j. record j { logs_archived_at = some now; logs_archive_backend = some storage_backend };
}

-- The queries.
abbrev pub list_for_pipeline : ℕ → List Job → List Job
list_for_pipeline pipeline_id jobs = filter (λ j. j.pipeline_id == pipeline_id) jobs

abbrev pub running_for_pipeline : ℕ → List Job → List Job
running_for_pipeline pipeline_id jobs =
    filter (λ j. j.pipeline_id == pipeline_id && is_in_progress j.status) jobs

abbrev pub is_success : Option JobConclusion → Bool
is_success (some success) = true
is_success _ = false

-- `started_at + timeout < now()`
abbrev pub find_timed_out : ℕ → List Job → List Job
find_timed_out now jobs =
    filter (λ j. is_in_progress j.status && older_than j.started_at now j.timeout_seconds) jobs

-- A job of the same pipeline that `j` needs and that has not concluded with success.
abbrev pub blocks : Job → Job → Bool
blocks j d =
    d.pipeline_id == j.pipeline_id && contains j.needs d.job_key && not (is_success d.conclusion)

abbrev pub blocked_by_needs : List Job → Job → Bool
blocked_by_needs jobs j = any (blocks j) jobs

abbrev pub in_live_pipeline : List Pipeline → Job → Bool
in_live_pipeline pipelines j =
    any (λ (p : Pipeline). p.id == j.pipeline_id && not (is_completed p.status)) pipelines

-- `find_eligible`, the `WHERE` of it: which jobs may be scheduled.
abbrev pub is_eligible : List Pipeline → List Job → Job → Bool
is_eligible pipelines jobs j =
    is_queued j.status && in_live_pipeline pipelines j && not (blocked_by_needs jobs j)
