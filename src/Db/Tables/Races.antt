-- ===== src/Db/Tables/Races.antt =====
-- Where a runner gets a second job (backend/src/db/runners.rs): `resume` and `mark_connected` set a runner
-- idle without a look at the job that it still has.
use overup.Prelude.{ℕ, ◌≡◌, true, false, none, some, [], ◌∷◌, ◌==◌, arith, Text}
use overup.Db.Rows.{Status, in_progress, idle, busy, Job, Runner}
use overup.Db.Statements.{Update, apply, execute}
use overup.Db.Runners
use overup.Db.Tables.{Tables, claim_for_runner}
use overup.Db.Tables.Load.{load}

abbrev pub two_jobs : Job → Job → Runner → Tables
two_jobs running waiting r = record {
  jobs = running ∷ waiting ∷ [];
  runners = r ∷ [];
  pipelines = [];
}

abbrev pub with_runners : Update Runner → Tables → Tables
with_runners u db = record db { runners = execute u db.runners }

-- The runner works on one job, and another job waits.
pub record AtWork (running waiting : Job) (r : Runner) : Type 0 where
  pub works : running.status ≡ in_progress
  pub there : running.runner_id ≡ some r.id
  pub waits : waiting.status ≡ Status.queued
  pub nowhere : waiting.runner_id ≡ none
  pub other : (running.id == waiting.id) ≡ false
  pub is_busy : r.status ≡ busy
  pub live : r.revoked_at ≡ none

module _ (running waiting : Job) (r : Runner) (w : AtWork running waiting r) where
  -- Whatever sets the runner idle lets the next claim give it the waiting job as well.
  claim_second :
      (now : ℕ) (r' : Runner)
      → r'.id ≡ r.id
      → r'.status ≡ idle
      → r'.revoked_at ≡ none
      → load r.id (claim_for_runner now waiting.id r.id (two_jobs running waiting r')).0.jobs ≡ 2
  unfolding claim_for_runner
  claim_second now r' same i live = ground arith

  -- A busy runner, not revoked, that is disabled and resumed while its job runs is idle, and a claim then
  -- gives it a waiting job as the second one in progress.
  pub resume_double_assigns :
      (now : ℕ)
      → let off = apply (Runners.disable r.workspace_id r.id) r in
        let on = apply (Runners.resume r.workspace_id r.id true) off in
        load r.id (claim_for_runner now waiting.id r.id (two_jobs running waiting on)).0.jobs ≡ 2
  resume_double_assigns now =
      let off = apply (Runners.disable r.workspace_id r.id) r in
      let on = apply (Runners.resume r.workspace_id r.id true) off in
      claim_second now on (ground arith) (ground arith) (ground arith)

  -- A busy runner, not revoked, that opens a second connection while its job runs is idle, and a claim
  -- then gives it a waiting job as the second one in progress.
  pub reconnect_double_assigns :
      (now : ℕ) (version : Text)
      → let on = apply (Runners.mark_connected now r.id version) r in
        load r.id (claim_for_runner now waiting.id r.id (two_jobs running waiting on)).0.jobs ≡ 2
  reconnect_double_assigns now version =
      let on = apply (Runners.mark_connected now r.id version) r in
      claim_second now on (ground arith) (ground arith) (ground arith)
