-- ===== src/Handlers/Orphans.antt =====
-- `orphan_runner_jobs` (backend/src/services/pipeline_run.rs): a lost runner keeps no job.
use overup.Prelude.{ℕ, ◌≡◌, ◌≢◌, ◌⊎◌, true, none, some, List, [], ◌∷◌, arith}
use overup.Db.Rows.{queued, in_progress, completed, Job}
use overup.Db.Statements.{Update, apply, execute, returning}
use overup.Db.Jobs
use overup.Db.Jobs.History.{Each}
use overup.Db.Tables.Load.{occupies}
use overup.World.{World, on_jobs}
use overup.Handlers.{on_job_requeued, on_job_finished, orphan_runner_jobs}
use overup.Handlers.Stable.{Stable, for_each-keeps, on_job_finished-keeps}

-- The runner does not work on this job.
abbrev pub Free : ℕ → Job → Type 0
Free runner_id j = j.runner_id ≡ some runner_id → j.status ≢ in_progress

-- What has become of a row: it is the same job, the runner does not work on it, and if the runner did, it waits
-- in the queue for any runner or has ended.
abbrev pub IsHandled : ℕ → Job → Job → Type 0
IsHandled r j k =
    (k.id ≡ j.id)
    × Free r k
    × (occupies r j ≡ true → ((k.status ≡ queued) × (k.runner_id ≡ none)) ⊎ (k.status ≡ completed))

abbrev AllHandled : ℕ → List Job → World → Type 0
AllHandled r before w = Each (IsHandled r) before w.tables.jobs

-- A statement that keeps each row handled.
Each-execute :
    (R S : Job → Job → Type 0) (u : Update Job)
    → ((j k : Job) → R j k → S j (apply u k))
    → (js ks : List Job) → Each R js ks
    → Each S js (execute u ks)
Each-execute R S u h [] [] e = tt
Each-execute R S u h [] (k ∷ ks) e = absurd e
Each-execute R S u h (j ∷ js) [] e = absurd e
Each-execute R S u h (j ∷ js) (k ∷ ks) (e, es) = (h j k e, Each-execute R S u h js ks es)

skipped-IsHandled :
    (now r : ℕ) (skip : List ℕ) (j k : Job)
    → IsHandled r j k
    → IsHandled r j (apply (Jobs.mark_skipped now skip) k)
skipped-IsHandled now r skip j k h = ground arith

AllHandled-Stable : (now r : ℕ) (before : List Job) → Stable now (AllHandled r before)
AllHandled-Stable now r before = record {
  emits = λ e w h. h;
  skips = λ skip w h.
      Each-execute (IsHandled r) (IsHandled r) (Jobs.mark_skipped now skip)
        (skipped-IsHandled now r skip) before w.tables.jobs h;
  ends = λ i v w h. h;
  frees = λ i w h. h;
}

-- Both statements, on one row.
orphan-IsHandled :
    (now r : ℕ) (j : Job)
    → IsHandled r j (apply (Jobs.fail_orphans now r) (apply (Jobs.requeue_orphans r) j))
orphan-IsHandled now r j = ground arith

orphans-AllHandled :
    (now r : ℕ) (jobs : List Job)
    → Each
        (IsHandled r)
        jobs
        (execute (Jobs.fail_orphans now r) (execute (Jobs.requeue_orphans r) jobs))
orphans-AllHandled now r [] = tt
orphans-AllHandled now r (j ∷ jobs) = (orphan-IsHandled now r j, orphans-AllHandled now r jobs)

-- After `orphan_runner_jobs` every row is still there under its id, and the runner has no job in progress: each
-- that it had waits in the queue again, without a runner, or is completed.
pub orphan_runner_jobs-Handled :
    (now runner_id : ℕ) (w : World)
    → Each (IsHandled runner_id) w.tables.jobs (orphan_runner_jobs now runner_id w).tables.jobs
unfolding orphan_runner_jobs on_job_requeued
orphan_runner_jobs-Handled now r w =
    let again = Jobs.requeue_orphans r in
    let over = Jobs.fail_orphans now r in
    let requeued = on_jobs again w in
    let P = AllHandled r w.tables.jobs in
    let stable = AllHandled-Stable now r w.tables.jobs in
    for_each-keeps now P stable (on_job_finished now) (on_job_finished-keeps now P stable)
      (returning over requeued.tables.jobs) _
      (for_each-keeps now P stable on_job_requeued (λ j w h. h) (returning again w.tables.jobs)
        (on_jobs over requeued) (orphans-AllHandled now r w.tables.jobs))
