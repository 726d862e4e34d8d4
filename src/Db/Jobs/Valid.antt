-- ===== src/Db/Jobs/Valid.antt =====
-- The invariant of the rows of `pipeline_jobs` (backend/src/db/pipeline_jobs.rs): what the CHECK of the
-- migration demands, and what the statements keep beyond it.
use overup.Prelude.{ℕ, ◌≤◌, ◌≡◌, false, Option, none, List, [], ◌∷◌, All, Text, arith}
use overup.Db.Rows.{
  Status, in_progress, completed, JobConclusion, Stage, done, ErrorCategory, Job, is_null,
}
use overup.Db.Statements.{Update, apply, execute}
use overup.Db.Jobs

-- Every statement that writes the table, with its parameters.
pub data JobOp : Type 0 where
  claim : (now job_id runner_id : ℕ) → JobOp
  unclaim : (job_id : ℕ) → JobOp
  ack : (now job_id runner_id : ℕ) → JobOp
  revert_unacked : (now cutoff_secs : ℕ) → JobOp
  set_stage : (job_id runner_id : ℕ) → Stage → JobOp
  finish_from_runner :
      (now job_id runner_id : ℕ)
      → JobConclusion
      → Option ℕ
      → Option ErrorCategory
      → Option Text
      → JobOp
  force_finish : (now job_id : ℕ) → JobConclusion → Option ErrorCategory → JobOp
  mark_skipped : (now : ℕ) → List ℕ → JobOp
  cancel_one_queued : (now job_id : ℕ) → JobOp
  cancel_queued : (now pipeline_id : ℕ) → JobOp
  requeue_orphans : (runner_id : ℕ) → JobOp
  fail_orphans : (now runner_id : ℕ) → JobOp
  requeue_all_orphans : JobOp
  fail_all_orphans : (now : ℕ) → JobOp
  add_log_bytes : (job_id delta : ℕ) → JobOp
  mark_logs_archived : (now job_id : ℕ) → Text → JobOp

abbrev pub sql : JobOp → Update Job
sql (claim now job runner) = Jobs.claim_job now job runner
sql (unclaim job) = Jobs.unclaim job
sql (ack now job runner) = Jobs.ack now job runner
sql (revert_unacked now cutoff) = Jobs.revert_unacked now cutoff
sql (set_stage job runner stage) = Jobs.set_stage job runner stage
sql (finish_from_runner now job runner c e cat m) = Jobs.finish_from_runner now job runner c e cat m
sql (force_finish now job c cat) = Jobs.force_finish now job c cat
sql (mark_skipped now ids) = Jobs.mark_skipped now ids
sql (cancel_one_queued now job) = Jobs.cancel_one_queued now job
sql (cancel_queued now pipeline) = Jobs.cancel_queued now pipeline
sql (requeue_orphans runner) = Jobs.requeue_orphans runner
sql (fail_orphans now runner) = Jobs.fail_orphans now runner
sql requeue_all_orphans = Jobs.requeue_all_orphans
sql (fail_all_orphans now) = Jobs.fail_all_orphans now
sql (add_log_bytes job delta) = Jobs.add_log_bytes job delta
sql (mark_logs_archived now job backend) = Jobs.mark_logs_archived now job backend

pub record IsValid (j : Job) : Type 0 where
  pub concluded : j.status ≡ completed → is_null j.conclusion ≡ false
  pub only_concluded : is_null j.conclusion ≡ false → j.status ≡ completed
  pub waits :
      j.status ≡ Status.queued
      → (j.runner_id ≡ none) × (j.stage ≡ Stage.queued) × (j.assigned_at ≡ none)
  pub placed :
      j.status ≡ in_progress → (is_null j.runner_id ≡ false) × (is_null j.assigned_at ≡ false)
  pub over : j.status ≡ completed → (j.stage ≡ done) × (is_null j.finished_at ≡ false)
  pub first_attempt : 1 ≤ j.attempt
  pub last_attempt : j.attempt ≤ 2

pub apply-IsValid : (op : JobOp) (j : Job) → IsValid j → IsValid (apply (sql op) j)
apply-IsValid (claim now job runner) j v = ground arith
apply-IsValid _ j v = ground arith

-- Every statement keeps every row of the table valid: a conclusion stands exactly on completed jobs, a
-- queued job has no runner, a job in progress has one, a completed job is at its last stage, and there
-- are at most two attempts.
pub execute-IsValid :
    (op : JobOp) (jobs : List Job) → All IsValid jobs → All IsValid (execute (sql op) jobs)
execute-IsValid op [] v = tt
execute-IsValid op (j ∷ jobs) (v, vs) = (apply-IsValid op j v, execute-IsValid op jobs vs)
