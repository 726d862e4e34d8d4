-- ===== src/Handlers/Stopped.antt =====
-- What the handlers that stop work leave behind (backend/src/services/pipeline_run.rs): a timed-out
-- pipeline ends, a cancelled one has no job that waits and none that runs untold, and a lost runner
-- has no job in progress.
use overup.Prelude.{
  ℕ, ◌≡◌, refl, sym, subst, true, Option, none, some, List, [], ◌∷◌, map, ◌==◌, ◌≢◌, codes, All, In,
  arith, Option-cases, ◌⊎◌, inl, inr, ◌&&◌, ==_refl,
}
use overup.Db.Rows.{
  Status, in_progress, completed, JobConclusion, timed_out, ErrorCategory, timeout, Job, Pipeline,
  is_in_progress,
}
use overup.Db.Statements.{Update, apply, execute, returning, first}
use overup.Db.Jobs
use overup.Db.Jobs.{member, running_for_pipeline}
use overup.World.{Effect, Payload, reason, time_limit, World, emit, on_jobs, for_each}
use overup.Handlers.{
  tell_cancelled, cancel_waiting, timeout_job, timeout_pipeline, force_and_finish, signal,
}
use overup.Handlers.Stable.{Stable, finish_found-keeps, maybe_finalize-keeps}

abbrev pub ids_of : List Job → List ℕ
ids_of jobs = map (λ (j : Job). j.id) jobs

-- A job of the pipeline is completed, or is in progress and among those that are still to stop.
abbrev pub Left : ℕ → List ℕ → Job → Type 0
Left id ids j =
    j.pipeline_id ≡ id
    → (j.status ≡ completed) ⊎ ((member j.id ids ≡ true) × (j.status ≡ in_progress))

abbrev pub AllLeft : ℕ → List ℕ → World → Type 0
AllLeft id ids w = All (Left id ids) w.tables.jobs

module _ (Q R : Job → Type 0) (u : Update Job) (h : (j : Job) → Q j → R (apply u j)) where
  pub All-execute : (jobs : List Job) → All Q jobs → All R (execute u jobs)
  All-execute [] q = tt
  All-execute (j ∷ jobs) (q, qs) = (h j q, All-execute jobs qs)

skipped-Left :
    (now id : ℕ) (ids skip : List ℕ) (j : Job)
    → Left id ids j
    → Left id ids (apply (Jobs.mark_skipped now skip) j)
skipped-Left now id ids skip j h = ground arith

pub AllLeft-Stable : (now id : ℕ) (ids : List ℕ) → Stable now (AllLeft id ids)
AllLeft-Stable now id ids = record {
  emits = λ e w h. h;
  skips = λ skip w h.
      All-execute (Left id ids) (Left id ids) (Jobs.mark_skipped now skip)
        (skipped-Left now id ids skip) w.tables.jobs h;
  ends = λ i v w h. h;
  frees = λ i w h. h;
}

-- Finishing one job by force takes it off the list.
forced-Left :
    (now id i : ℕ) (c : JobConclusion) (cat : Option ErrorCategory) (ids : List ℕ) (j : Job)
    → Left id (i ∷ ids) j
    → Left id ids (apply (Jobs.force_finish now i c cat) j)
forced-Left now id i c cat ids j h = ground arith

pub force_and_finish-Left :
    (now id i : ℕ) (c : JobConclusion) (cat : Option ErrorCategory) (ids : List ℕ) (w : World)
    → AllLeft id (i ∷ ids) w
    → AllLeft id ids (force_and_finish now i c cat w)
force_and_finish-Left now id i c cat ids w h =
    finish_found-keeps now (AllLeft id ids) (AllLeft-Stable now id ids)
      (first (returning (Jobs.force_finish now i c cat) w.tables.jobs)) _
      (All-execute (Left id (i ∷ ids)) (Left id ids) (Jobs.force_finish now i c cat)
        (forced-Left now id i c cat ids) w.tables.jobs h)

pub signal-keeps :
    (now : ℕ) (j : Job) (w : World) (P : World → Type 0)
    → ((e : Effect) (w : World) → P w → P (emit e w))
    → P w
    → P (signal now time_limit j w)
signal-keeps now j w P emits h = elim (Option-cases j.runner_id) [
  | inl e ↦ rw e h
  | inr (r, e) ↦ rw e (emits _ w h)
]

pub timeouts-Left :
    (now id : ℕ) (js : List Job) (w : World)
    → AllLeft id (ids_of js) w
    → AllLeft id [] (for_each (timeout_job now) js w)
unfolding timeout_job
timeouts-Left now id [] w h = h
timeouts-Left now id (j ∷ js) w h = timeouts-Left now id js _ (
    force_and_finish-Left now id j.id timed_out (some timeout) (ids_of js)
      (signal now time_limit j w)
      (signal-keeps now j w (AllLeft id (ids_of (j ∷ js))) (λ e w h. h) h))

first_is :
    (id : ℕ) (x : Job) (jobs : List Job)
    → (x.pipeline_id == id && is_in_progress x.status) ≡ true
    → member x.id (ids_of (running_for_pipeline id (x ∷ jobs))) ≡ true
first_is id x jobs h = rw (h, ==_refl x.id) refl

member-running :
    (id : ℕ) (jobs : List Job) (j : Job)
    → In j jobs
    → (j.pipeline_id == id && is_in_progress j.status) ≡ true
    → member j.id (ids_of (running_for_pipeline id jobs)) ≡ true
member-running id [] j i h = absurd i
member-running id (x ∷ jobs) j (inl e) h =
    subst (λ k. member k.id (ids_of (running_for_pipeline id (x ∷ jobs))) ≡ true) (sym e)
      (first_is id x jobs
        (subst (λ k. (k.pipeline_id == id && is_in_progress k.status) ≡ true) e h))
member-running id (x ∷ jobs) j (inr i) h = ground (arith, member-running id jobs j i h)

-- No job of the pipeline is queued.
abbrev pub NotWaiting : ℕ → Job → Type 0
NotWaiting id j = j.pipeline_id ≡ id → j.status ≢ Status.queued

cancelled-NotWaiting :
    (now id : ℕ) (jobs : List Job) → All (NotWaiting id) (execute (Jobs.cancel_queued now id) jobs)
cancelled-NotWaiting now id [] = tt
cancelled-NotWaiting now id (j ∷ jobs) = ((ground arith), cancelled-NotWaiting now id jobs)

running-Left :
    (id : ℕ) (jobs js : List Job)
    → ((j : Job) → In j js → In j jobs)
    → All (NotWaiting id) js
    → All (Left id (ids_of (running_for_pipeline id jobs))) js
running-Left id jobs [] sub w = tt
running-Left id jobs (j ∷ js) sub (n, w) =
    let mem = member-running id jobs j (sub j (inl refl)) in
    (row j n mem, running-Left id jobs js (λ k i. sub k (inr i)) w)
  where
    row :
        (j : Job)
        → NotWaiting id j
        → ((j.pipeline_id == id && is_in_progress j.status) ≡ true
            → member j.id (ids_of (running_for_pipeline id jobs)) ≡ true)
        → Left id (ids_of (running_for_pipeline id jobs)) j
    row j n mem = ground arith

-- After the queued jobs are cancelled, what is left to stop are the running ones.
cancelled-Left :
    (now id : ℕ) (jobs : List Job)
    → All
        (Left id (ids_of (running_for_pipeline id (execute (Jobs.cancel_queued now id) jobs))))
        (execute (Jobs.cancel_queued now id) jobs)
cancelled-Left now id jobs =
    let after = execute (Jobs.cancel_queued now id) jobs in
    running-Left id after after (λ j i. i) (cancelled-NotWaiting now id jobs)

pub tell_cancelled-tables :
    (now id : ℕ) (actor : Option ℕ) (p : Payload) (js : List Job) (w : World)
    → (for_each (tell_cancelled now id actor p) js w).tables ≡ w.tables
tell_cancelled-tables now id actor p [] w = refl
tell_cancelled-tables now id actor p (j ∷ js) w = tell_cancelled-tables now id actor p js _

abbrev pub Stopped : ℕ → Job → Type 0
Stopped id j = j.pipeline_id ≡ id → j.status ≡ completed

pub cancel_waiting-Left :
    (now id : ℕ) (actor : Option ℕ) (p : Payload) (w : World)
    → let after = cancel_waiting now id actor p w in
      AllLeft id (ids_of (running_for_pipeline id after.tables.jobs)) after
cancel_waiting-Left now id actor p w =
    let u = Jobs.cancel_queued now id in
    subst (λ t. All (Left id (ids_of (running_for_pipeline id t.jobs))) t.jobs)
      (sym (tell_cancelled-tables now id actor p (returning u w.tables.jobs) (on_jobs u w)))
      (cancelled-Left now id w.tables.jobs)

pub Left-Stopped : (id : ℕ) (jobs : List Job) → All (Left id []) jobs → All (Stopped id) jobs
Left-Stopped id [] h = tt
Left-Stopped id (j ∷ jobs) (h, hs) = ((ground arith), Left-Stopped id jobs hs)

pub timeout_pipeline-Stopped :
    (now : ℕ) (p : Pipeline) (w : World) → All (Stopped p.id) (timeout_pipeline now p w).tables.jobs
unfolding timeout_pipeline
timeout_pipeline-Stopped now p w =
    let waiting = cancel_waiting now p.id none (reason (codes "pipeline_timeout")) w in
    let running = running_for_pipeline p.id waiting.tables.jobs in
    Left-Stopped p.id _ (
      maybe_finalize-keeps now (AllLeft p.id []) (AllLeft-Stable now p.id []) p.id
        (for_each (timeout_job now) running waiting)
        (timeouts-Left now p.id running waiting
          (cancel_waiting-Left now p.id none (reason (codes "pipeline_timeout")) w)))
