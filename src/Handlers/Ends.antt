-- ===== src/Handlers/Ends.antt =====
-- `timeout_pipeline` (backend/src/services/pipeline_run.rs) ends the pipeline and every job of it.
use overup.Prelude.{
  ℕ, ◌≡◌, ◌≢◌, refl, sym, ◌∙◌, subst, Bool, true, false, Option, none, some, List, [], ◌∷◌, any,
  All, arith, Bool-cases, inl, inr, ◌==◌, codes, ==_iff, is_empty,
}
use overup.Db.Rows.{completed, timed_out, timeout, Job, Pipeline}
use overup.Db.Statements.{Update, apply, execute, returning, first}
use overup.Db.Jobs
use overup.Db.Jobs.{list_for_pipeline, running_for_pipeline}
use overup.Run.{JobState}
use overup.Run.Conclusion.{Finished-concludes}
use overup.World.{World, Payload, reason, time_limit, on_jobs, for_each}
use overup.Handlers.{
  cancel_waiting, timeout_job, timeout_pipeline, maybe_finalize, statuses_for_pipeline, signal,
}
use overup.Handlers.Finalize.{Ended, maybe_finalize-Ended}
use overup.Handlers.Stable.{Stable, for_each-keeps, finish_found-keeps}
use overup.Handlers.Stopped.{
  Stopped, timeouts-Left, cancel_waiting-Left, Left-Stopped, tell_cancelled-tables,
  timeout_pipeline-Stopped, signal-keeps,
}

-- The pipeline has a job.
abbrev pub has_jobs : ℕ → List Job → Bool
has_jobs id jobs = any (λ (j : Job). j.pipeline_id == id) jobs

module _ (id : ℕ) (u : Update Job)
    (same : (j : Job) → (u.change j).pipeline_id ≡ j.pipeline_id) where
  has_jobs-row : (j : Job) → (apply u j).pipeline_id ≡ j.pipeline_id
  has_jobs-row j = elim (Bool-cases (u.guard j)) [ inl e ↦ rw e (same j) | inr e ↦ rw e refl ]

  has_jobs-execute : (jobs : List Job) → has_jobs id (execute u jobs) ≡ has_jobs id jobs
  has_jobs-execute [] = refl
  has_jobs-execute (j ∷ jobs) = rw (has_jobs-row j, has_jobs-execute jobs) refl

abbrev HasJobs : ℕ → World → Type 0
HasJobs id w = has_jobs id w.tables.jobs ≡ true

HasJobs-Stable : (now id : ℕ) → Stable now (HasJobs id)
HasJobs-Stable now id = record {
  emits = λ e w h. h;
  skips =
      λ skip w h. has_jobs-execute id (Jobs.mark_skipped now skip) (λ j. refl) w.tables.jobs ∙ h;
  ends = λ i v w h. h;
  frees = λ i w h. h;
}

timeout_job-HasJobs :
    (now id : ℕ) (j : Job) (w : World) → HasJobs id w → HasJobs id (timeout_job now j w)
unfolding timeout_job
timeout_job-HasJobs now id j w h =
    let u = Jobs.force_finish now j.id timed_out (some timeout) in
    let told = signal now time_limit j w in
    finish_found-keeps now (HasJobs id) (HasJobs-Stable now id)
      (first (returning u told.tables.jobs)) _
      (has_jobs-execute id u (λ j. refl) told.tables.jobs
        ∙ signal-keeps now j w (HasJobs id) (λ e w h. h) h)

completed_statuses :
    (now id : ℕ) (jobs : List Job)
    → All (Stopped id) jobs
    → All (λ (s : JobState). s.0 ≡ completed) (statuses_for_pipeline now id jobs)
completed_statuses now id [] h = tt
completed_statuses now id (j ∷ jobs) (h, hs) = elim (Bool-cases (j.pipeline_id == id)) [
  | inl e ↦ rw e (h ((==_iff j.pipeline_id id).0 e), completed_statuses now id jobs hs)
  | inr e ↦ rw e (completed_statuses now id jobs hs)
]

some_statuses :
    (now id : ℕ) (jobs : List Job)
    → has_jobs id jobs ≡ true
    → is_empty (statuses_for_pipeline now id jobs) ≡ false
some_statuses now id [] h = cc
some_statuses now id (j ∷ jobs) h = elim (Bool-cases (j.pipeline_id == id)) [
  | inl e ↦ rw e refl
  | inr e ↦ rw e (some_statuses now id jobs (rw e at h))
]

not_empty : (ss : List JobState) → is_empty ss ≡ false → ss ≢ []
not_empty ss h e = ground arith

-- Once every job of a pipeline with jobs is completed, `maybe_finalize` ends it.
pub finalize-Stopped :
    (now id : ℕ) (w : World)
    → has_jobs id w.tables.jobs ≡ true
    → All (Stopped id) w.tables.jobs
    → All (Ended id) (maybe_finalize now id w).tables.pipelines
finalize-Stopped now id w h stopped =
    let ss = statuses_for_pipeline now id w.tables.jobs in
    let (v, e) =
      Finished-concludes ss (
        not_empty ss (some_statuses now id w.tables.jobs h),
        completed_statuses now id _ stopped,
      ) in
    maybe_finalize-Ended now id w v e

pub cancel_waiting-HasJobs :
    (now id : ℕ) (actor : Option ℕ) (p : Payload) (w : World)
    → HasJobs id w
    → HasJobs id (cancel_waiting now id actor p w)
cancel_waiting-HasJobs now id actor p w h =
    let u = Jobs.cancel_queued now id in
    subst (λ t. has_jobs id t.jobs ≡ true)
      (sym (tell_cancelled-tables now id actor p (returning u w.tables.jobs) (on_jobs u w)))
      (has_jobs-execute id u (λ j. refl) w.tables.jobs ∙ h)

-- The timeout of a pipeline that has a job ends it at once, whatever its jobs and runners did: every
-- job of it is completed, and so is the pipeline.
pub timeout_pipeline-Ended :
    (now : ℕ) (p : Pipeline) (w : World)
    → has_jobs p.id w.tables.jobs ≡ true
    → All (Stopped p.id) (timeout_pipeline now p w).tables.jobs
      × All (Ended p.id) (timeout_pipeline now p w).tables.pipelines
unfolding timeout_pipeline
timeout_pipeline-Ended now p w h =
    let why = reason (codes "pipeline_timeout") in
    let waiting = cancel_waiting now p.id none why w in
    let running = running_for_pipeline p.id waiting.tables.jobs in
    let stopped = for_each (timeout_job now) running waiting in
    let left = timeouts-Left now p.id running waiting (cancel_waiting-Left now p.id none why w) in
    let kept =
      for_each-keeps now (HasJobs p.id) (HasJobs-Stable now p.id) (timeout_job now)
        (timeout_job-HasJobs now p.id) running waiting
        (cancel_waiting-HasJobs now p.id none why w h) in
    (
      timeout_pipeline-Stopped now p w,
      finalize-Stopped now p.id stopped kept (Left-Stopped p.id stopped.tables.jobs left),
    )
