-- ===== src/Db/Tables.antt =====
-- The tables together, and what backend/src/db/pipeline_jobs.rs and backend/src/services do to jobs and
-- runners at once: the two-row claim, and the transitions that end with the release of a runner.
pub mod Load
pub mod Exclusive
pub mod Claim
pub mod Steps
pub mod Sound
pub mod Reachable
pub mod Composed
pub mod Races
mod Tests
use overup.Prelude.{
  ℕ, ◌+◌, Bool, true, false, ◌&&◌, Option, none, some, List, [], ◌∷◌, map, if◌then◌else◌, filter,
  ◌==◌,
}
use overup.Db.Rows.{Job, Runner, Pipeline}
use overup.Db.Statements.{Update, execute, returning, first}
use overup.Db.Jobs
use overup.Db.Runners

pub record Tables : Type 0 where
  pub jobs : List Job
  pub runners : List Runner
  pub pipelines : List Pipeline

-- `claim_for_runner`: one transaction, abandoned when either half finds no row.
abbrev commit_claim : ℕ → ℕ → ℕ → Tables → Job → Option Runner → Tables × Option Job
commit_claim now job_id runner_id db job none = (db, none)
commit_claim now job_id runner_id db job (some claimed) = (
  record db {
    jobs = execute (Jobs.claim_job now job_id runner_id) db.jobs;
    runners = execute (Runners.claim_runner runner_id) db.runners;
  },
  some job,
)

abbrev claim_with : ℕ → ℕ → ℕ → Tables → Option Job → Tables × Option Job
claim_with now job_id runner_id db none = (db, none)
claim_with now job_id runner_id db (some job) =
    commit_claim now job_id runner_id db job
      (first (returning (Runners.claim_runner runner_id) db.runners))

unfoldable pub claim_for_runner : ℕ → ℕ → ℕ → Tables → Tables × Option Job
claim_for_runner now job_id runner_id db =
    claim_with now job_id runner_id db
      (first (returning (Jobs.claim_job now job_id runner_id) db.jobs))

-- `db::runners::release` on each runner of a list, a NULL runner being nobody.
unfoldable pub release_all : List (Option ℕ) → List Runner → List Runner
release_all [] runners = runners
release_all (none ∷ ids) runners = release_all ids runners
release_all (some id ∷ ids) runners = release_all ids (execute (Runners.release id) runners)

abbrev pub runner_ids : List Job → List (Option ℕ)
runner_ids = map (λ (j : Job). j.runner_id)

-- A terminal statement and, for each row that it returns, the release of `on_job_finished`
-- (backend/src/services/pipeline_run.rs).
unfoldable pub finish_with : Update Job → Tables → Tables
finish_with u db = record db {
  jobs = execute u db.jobs;
  runners = release_all (runner_ids (returning u db.jobs)) db.runners;
}

-- A statement that puts jobs back in the queue, and the release of the runners that had them:
-- `revert_unacked` of backend/src/services/scheduler.rs, which reads them from the old rows, and the
-- undoing of a claim whose payload could not be delivered.
unfoldable pub requeue_with : Update Job → Tables → Tables
requeue_with u db = record db {
  jobs = execute u db.jobs;
  runners = release_all (runner_ids (filter u.guard db.jobs)) db.runners;
}

-- `sweep_stale_runners` and the end of a connection: the runner goes offline, its jobs are requeued, and
-- those on their last attempt fail (`orphan_runner_jobs`).
unfoldable pub lose_runner : ℕ → ℕ → Tables → Tables
lose_runner now runner_id db = finish_with (Jobs.fail_orphans now runner_id) (record db {
  jobs = execute (Jobs.requeue_orphans runner_id) db.jobs;
  runners = execute (Runners.mark_offline runner_id) db.runners;
})
