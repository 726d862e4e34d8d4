-- ===== src/Handlers.antt =====
-- backend/src/services/pipeline_run.rs: the handlers of the pipeline state machine, over the world of
-- World. Each runs its statements in the order of the source, and emits its effects.
pub mod Stable
pub mod Finalize
pub mod Stopped
pub mod Ends
pub mod Cancel
pub mod Orphans
pub mod Dependents
mod Tests
use overup.Prelude.{
  ℕ, Bool, true, false, not, ◌&&◌, Option, none, some, List, [], ◌∷◌, map, if◌then◌else◌, is_empty,
  find, ◌==◌, Text, codes,
}
use overup.Db.Rows.{
  Status, JobConclusion, success, failure, cancelled, timed_out, skipped, Verdict, Stage, Job,
  Pipeline, ErrorCategory, timeout, is_completed,
}
use overup.Db.Statements.{Update, execute, returning, first}
use overup.Db.Jobs
use overup.Db.Jobs.{list_for_pipeline, running_for_pipeline, is_success}
use overup.Db.Runners
use overup.Db.Pipelines
use overup.Db.Tables.{Tables}
use overup.Run.{JobState, compute_conclusion, Closure, doomed_closure}
use overup.World.{
  CancelReason, user, time_limit, Payload, nothing, attempt, result, reason, given, Event, Effect,
  job_cancel, flush_log, archive_log, check_started, check_completed, audit, poke, World, Reply, ok,
  conflict, not_found, emit, on_jobs, on_pipelines, for_each, conclusion_text, verdict_text,
  stage_text, publish_job, publish_pipeline, record_event, job_event, pipeline_event, closed_event,
}

unfoldable pub on_job_assigned : Job → World → World
on_job_assigned j w = publish_job j (
    record_event
      (job_event j (codes "job.assigned") (some (codes "queued")) (some (codes "assigned"))
        (attempt j.attempt))
      w)

unfoldable pub on_job_stage : Job → Text → World → World
on_job_stage j payload w = publish_job j (
    record_event (job_event j (codes "job.stage") none (some (stage_text j.stage)) (given payload))
      w)

unfoldable pub on_job_requeued : Job → World → World
on_job_requeued j w = emit poke (
    publish_job j (
      record_event
        (record (job_event j (codes "job.requeued") (some (codes "in_progress"))
          (some (codes "queued")) (attempt j.attempt)) { runner_id = none })
        (emit (flush_log j.pipeline_id j.id) w)))

-- The statements of one run of a handler carry the time `now`; `delivers` says, after the effects so
-- far, whether the channel of a runner takes a message.
module _ (now : ℕ) where
  abbrev started : Option Pipeline → World → World
  started none w = w
  started (some p) w = emit (check_started p.id) (
      publish_pipeline p (
        record_event
          (pipeline_event p.id (codes "pipeline.started") (some (codes "queued"))
            (some (codes "in_progress")) none)
          w))

  unfoldable pub on_job_started : Job → World → World
  on_job_started j w =
      let u = Pipelines.mark_in_progress now j.pipeline_id in
      publish_job j (
        record_event
          (job_event j (codes "job.started") (some (codes "assigned")) (some (codes "preparing"))
            (attempt j.attempt))
          (started (first (returning u w.tables.pipelines)) (on_pipelines u w)))

  -- The event and broadcast for one skipped job.
  abbrev pub tell_skipped : ℕ → Job → World → World
  tell_skipped pipeline_id j w = publish_job j (
      record_event
        (closed_event pipeline_id j (codes "skipped") none (reason (codes "dependency_failed"))) w)

  abbrev pub skip_jobs : ℕ → List ℕ → World → World
  skip_jobs pipeline_id to_skip w =
      if is_empty to_skip
      then w
      else let u = Jobs.mark_skipped now to_skip in
        for_each (tell_skipped pipeline_id) (returning u w.tables.jobs) (on_jobs u w)

  abbrev pub skip_closure : ℕ → Option Closure → World → World
  skip_closure pipeline_id none w = w
  skip_closure pipeline_id (some c) w = skip_jobs pipeline_id c.to_skip w

  unfoldable pub skip_dependents : ℕ → World → World
  skip_dependents pipeline_id w =
      skip_closure pipeline_id (doomed_closure (list_for_pipeline pipeline_id w.tables.jobs)) w

  abbrev pub tell_finalized : Verdict → Option Pipeline → World → World
  tell_finalized v none w = w
  tell_finalized v (some p) w = emit (audit (codes "pipeline.completed") p.id none) (
      emit (check_completed p.id) (
        publish_pipeline p (
          record_event
            (pipeline_event p.id (codes "pipeline.completed") (some (codes "in_progress"))
              (some (verdict_text v)) none)
            w)))

  abbrev pub finalize_as : ℕ → Option Verdict → World → World
  finalize_as pipeline_id none w = w
  finalize_as pipeline_id (some v) w =
      let u = Pipelines.finalize now pipeline_id v in
      tell_finalized v (first (returning u w.tables.pipelines)) (on_pipelines u w)

  abbrev pub statuses_for_pipeline : ℕ → List Job → List JobState
  statuses_for_pipeline pipeline_id jobs =
      map (λ (j : Job). (j.status, j.conclusion)) (list_for_pipeline pipeline_id jobs)

  unfoldable pub maybe_finalize : ℕ → World → World
  maybe_finalize pipeline_id w =
      finalize_as pipeline_id (compute_conclusion (statuses_for_pipeline pipeline_id w.tables.jobs))
        w

  abbrev pub release_runner : Option ℕ → World → World
  release_runner none w = w
  release_runner (some id) w = record w {
    tables = record w.tables { runners = execute (Runners.release id) w.tables.runners };
  }

  -- `unwrap_or("failure")`
  abbrev pub or_failure : Option JobConclusion → JobConclusion
  or_failure none = failure
  or_failure (some c) = c

  abbrev pub record_finished : Job → World → World
  record_finished j w = publish_job j (
      record_event
        (job_event j (codes "job.completed") (some (codes "in_progress"))
          (some (conclusion_text (or_failure j.conclusion)))
          (result j.exit_code j.error_category j.attempt))
        w)

  unfoldable pub on_job_finished : Job → World → World
  on_job_finished j w =
      let freed = release_runner j.runner_id (emit (flush_log j.pipeline_id j.id) w) in
      let recorded = record_finished j freed in
      let settled =
        if is_success (some (or_failure j.conclusion))
        then recorded
        else skip_dependents j.pipeline_id recorded in
      emit poke (maybe_finalize j.pipeline_id (emit (archive_log j) settled))

  abbrev pub finish_found : Option Job → World → World
  finish_found none w = w
  finish_found (some j) w = on_job_finished j w

  -- `force_finish`, and `on_job_finished` if it has changed a row.
  abbrev pub force_and_finish : ℕ → JobConclusion → Option ErrorCategory → World → World
  force_and_finish job_id conclusion category w =
      let u = Jobs.force_finish now job_id conclusion category in
      finish_found (first (returning u w.tables.jobs)) (on_jobs u w)

  -- A message to the runner, if there is one.
  abbrev pub signal : CancelReason → Job → World → World
  signal why j w = elim j.runner_id [ none ↦ w | some r ↦ emit (job_cancel r j.id why) w ]

  unfoldable pub timeout_job : Job → World → World
  timeout_job j w = force_and_finish j.id timed_out (some timeout) (signal time_limit j w)

  -- The event and broadcast for one queued job that is cancelled.
  abbrev pub tell_cancelled : ℕ → Option ℕ → Payload → Job → World → World
  tell_cancelled pipeline_id actor payload j w =
      publish_job j (record_event (closed_event pipeline_id j (codes "cancelled") actor payload) w)

  abbrev pub cancel_waiting : ℕ → Option ℕ → Payload → World → World
  cancel_waiting pipeline_id actor payload w =
      let u = Jobs.cancel_queued now pipeline_id in
      for_each (tell_cancelled pipeline_id actor payload) (returning u w.tables.jobs) (on_jobs u w)

  unfoldable pub timeout_pipeline : Pipeline → World → World
  timeout_pipeline p w =
      let waiting = cancel_waiting p.id none (reason (codes "pipeline_timeout")) w in
      maybe_finalize p.id
        (for_each timeout_job (running_for_pipeline p.id waiting.tables.jobs) waiting)

  unfoldable pub orphan_runner_jobs : ℕ → World → World
  orphan_runner_jobs runner_id w =
      let again = Jobs.requeue_orphans runner_id in
      let requeued = on_jobs again w in
      let over = Jobs.fail_orphans now runner_id in
      let failed = on_jobs over requeued in
      for_each on_job_finished (returning over requeued.tables.jobs)
        (for_each on_job_requeued (returning again w.tables.jobs) failed)

  module _ (delivers : List Effect → ℕ → Bool) where
    -- `runner_id.is_some_and(|id| hub.send(id, …))`
    abbrev pub signalled : Job → World → Bool
    signalled j w = elim j.runner_id [ none ↦ false | some r ↦ delivers w.effects r ]

    -- The body of the loop over the running jobs: what cannot be signalled is finished here.
    abbrev pub cancel_running : Job → World → World
    cancel_running j w =
        let tried = signal user j w in
        if signalled j w then tried else force_and_finish j.id cancelled none tried

    unfoldable pub cancel_pipeline : Pipeline → Option ℕ → World → Reply × World
    cancel_pipeline p actor w =
        if is_completed p.status
        then (conflict (codes "pipeline already finished"), w)
        else let asked =
            record_event (pipeline_event p.id (codes "pipeline.cancel_requested") none none actor)
              w in
          let waiting = cancel_waiting p.id actor nothing asked in
          let stopped =
            for_each cancel_running (running_for_pipeline p.id waiting.tables.jobs) waiting in
          (ok, maybe_finalize p.id (emit (audit (codes "pipeline.cancelled") p.id actor) stopped))

    abbrev cancel_current : Option Job → World → Reply × World
    cancel_current none w = (not_found, w)
    cancel_current (some j) w =
        if is_completed j.status
        then (conflict (codes "job already finished"), w)
        else (ok, cancel_running j w)

    -- The arms of `cancel_one_queued`: `job` is the row that it returned.
    abbrev cancel_found : Pipeline → ℕ → Option ℕ → Option Job → World → Reply × World
    cancel_found p job_id actor (some j) w =
        (ok, maybe_finalize p.id (skip_dependents p.id (tell_cancelled p.id actor nothing j w)))
    cancel_found p job_id actor none w =
        cancel_current (find (λ (j : Job). j.pipeline_id == p.id && j.id == job_id) w.tables.jobs) w

    -- The audit entry, which an error skips.
    abbrev audited : ℕ → Option ℕ → Reply × World → Reply × World
    audited job_id actor (ok, w) = (ok, emit (audit (codes "job.cancelled") job_id actor) w)
    audited job_id actor (reply, w) = (reply, w)

    unfoldable pub cancel_job : Pipeline → Job → Option ℕ → World → Reply × World
    cancel_job p job actor w =
        if is_completed job.status
        then (conflict (codes "job already finished"), w)
        else let event = pipeline_event p.id (codes "job.cancel_requested") none none actor in
          let asked = record_event (record event { job_id = some job.id }) w in
          let u = Jobs.cancel_one_queued now job.id in
          audited job.id actor
            (cancel_found p job.id actor (first (returning u asked.tables.jobs)) (on_jobs u asked))
