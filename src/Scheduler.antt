-- ===== src/Scheduler.antt =====
-- backend/src/services/scheduler.rs: one pass of the scheduler. `dispatch`, which builds, signs and sends
-- the payload of a claimed job, is a parameter: the pass depends on its outcome only.
pub mod Labels
pub mod Assign
pub mod Placed
pub mod Given
mod Tests
use overup.Prelude.{
  ℕ, ◌+◌, Bool, true, false, not, ◌&&◌, ◌||◌, Option, none, some, List, [], ◌∷◌, map, reverse,
  if◌then◌else◌, ltb, leb, ◌==◌, any, all, filter, find, take, is_empty, Text, text_eq, codes,
}
use overup.Db.Rows.{
  failure, ErrorCategory, checkout_unavailable, secrets_unavailable, workdir_invalid, Job, Runner,
  Pipeline,
}
use overup.Db.Statements.{execute}
use overup.Db.Jobs
use overup.Db.Jobs.{member, is_eligible}
use overup.Db.Runners
use overup.Db.Runners.{find_idle_by_ids, find_stale}
use overup.Db.Pipelines
use overup.Db.Tables.{Tables, claim_for_runner}
use overup.World.{
  Effect, clear_masks, unregister, runner_update, audit, World, emit, on_jobs, for_each,
}
use overup.Handlers.{
  on_job_assigned, on_job_requeued, force_and_finish, release_runner, timeout_job, timeout_pipeline,
  orphan_runner_jobs,
}

abbrev pub ack_timeout_secs : ℕ
ack_timeout_secs = 15

abbrev pub runner_stale_secs : ℕ
runner_stale_secs = 90

abbrev pub assign_batch : ℕ
assign_batch = 50

-- `char::is_whitespace`, the Unicode property White_Space.
abbrev pub is_whitespace : ℕ → Bool
is_whitespace c =
    (leb 9 c && leb c 13)
    || c == 32
    || c == 133
    || c == 160
    || c == 5760
    || (leb 8192 c && leb c 8202)
    || c == 8232
    || c == 8233
    || c == 8239
    || c == 8287
    || c == 12288

abbrev pub trim_start : Text → Text
trim_start [] = []
trim_start (c ∷ s) = if is_whitespace c then trim_start s else c ∷ s

abbrev pub trim : Text → Text
trim s = reverse (trim_start (reverse (trim_start s)))

abbrev pub ascii_lower : ℕ → ℕ
ascii_lower c = if leb b'A' c && leb c b'Z' then c + 32 else c

abbrev pub eq_ignore_ascii_case : Text → Text → Bool
eq_ignore_ascii_case s t = text_eq (map ascii_lower s) (map ascii_lower t)

abbrev pub labels_satisfy : List Text → List Text → Bool
labels_satisfy runs_on runner_labels =
    all (λ wanted. any (λ have. eq_ignore_ascii_case (trim have) (trim wanted)) runner_labels)
      runs_on

-- `ORDER BY queued_at`
abbrev pub insert_by_queued : Job → List Job → List Job
insert_by_queued j [] = j ∷ []
insert_by_queued j (x ∷ jobs) =
    if ltb j.queued_at x.queued_at then j ∷ x ∷ jobs else x ∷ insert_by_queued j jobs

abbrev pub order_by_queued : List Job → List Job
order_by_queued [] = []
order_by_queued (j ∷ jobs) = insert_by_queued j (order_by_queued jobs)

-- `find_eligible` of backend/src/db/pipeline_jobs.rs.
abbrev pub find_eligible : ℕ → Tables → List Job
find_eligible limit db =
    take limit (order_by_queued (filter (is_eligible db.pipelines db.jobs) db.jobs))

pub data DispatchOutcome : Type 0 where
  sent unreachable checkout secrets workdir failed : DispatchOutcome

module _ (now : ℕ) where
  -- The loop over the reverted rows, with the runners that they had.
  abbrev pub requeue_found : Option Job → World → World
  requeue_found none w = w
  requeue_found (some j) w = on_job_requeued j w

  abbrev pub reverted : Job → World → World
  reverted old w =
      let freed = release_runner now old.runner_id w in
      requeue_found
        (find (λ (j : Job). j.pipeline_id == old.pipeline_id && j.id == old.id) freed.tables.jobs)
        freed

  unfoldable pub revert_unacked : World → World
  revert_unacked w =
      let u = Jobs.revert_unacked now ack_timeout_secs in
      for_each reverted (filter u.guard w.tables.jobs) (on_jobs u w)

  abbrev pub offline : ℕ → World → World
  offline id w = record w {
    tables = record w.tables { runners = execute (Runners.mark_offline id) w.tables.runners };
  }

  abbrev pub lose_stale : Runner → World → World
  lose_stale r w = emit (runner_update r.id) (
      emit (audit (codes "runner.offline") r.id none)
        (orphan_runner_jobs now r.id (offline r.id (emit (unregister r.id) w))))

  unfoldable pub sweep_stale_runners : World → World
  sweep_stale_runners w = for_each lose_stale (find_stale now runner_stale_secs w.tables.runners) w

  unfoldable pub sweep_timeouts : World → World
  sweep_timeouts w =
      let stopped = for_each (timeout_job now) (Jobs.find_timed_out now w.tables.jobs) w in
      for_each (timeout_pipeline now) (Pipelines.find_timed_out now stopped.tables.pipelines)
        stopped

  module _ (dispatch : List Effect → Job → ℕ → DispatchOutcome) where
    -- A job that must not run: the runner is freed, and the job fails with a static category.
    abbrev pub fail_closed : ErrorCategory → ℕ → Job → World → World
    fail_closed category runner_id claimed w =
        force_and_finish now claimed.id failure (some category)
          (release_runner now (some runner_id) (emit (clear_masks claimed.id) w))

    -- The arms of `match dispatch(…)`, with the runners in use before and after the claim.
    abbrev pub conclude : DispatchOutcome → ℕ → Job → List ℕ → World → List ℕ × World
    conclude sent runner_id claimed used w = (runner_id ∷ used, on_job_assigned claimed w)
    conclude checkout runner_id claimed used w =
        (used, fail_closed checkout_unavailable runner_id claimed w)
    conclude secrets runner_id claimed used w =
        (used, fail_closed secrets_unavailable runner_id claimed w)
    conclude workdir runner_id claimed used w =
        (used, fail_closed workdir_invalid runner_id claimed w)
    conclude _ runner_id claimed used w = (
      used,
      release_runner now (some runner_id)
          (on_jobs (Jobs.unclaim claimed.id) (emit (clear_masks claimed.id) w)),
    )

    abbrev pub after_claim : ℕ → List ℕ → World → Tables × Option Job → List ℕ × World
    after_claim runner_id used w (db, none) = (used, record w { tables = db })
    after_claim runner_id used w (db, some claimed) =
        conclude (dispatch w.effects claimed runner_id) runner_id claimed used
          (record w { tables = db })

    abbrev pub assign_to : Job → List ℕ → World → Option Runner → List ℕ × World
    assign_to job used w none = (used, w)
    assign_to job used w (some runner) =
        after_claim runner.id used w (claim_for_runner now job.id runner.id w.tables)

    abbrev pub fits : Job → List ℕ → Runner → Bool
    fits job used runner = not (member runner.id used) && labels_satisfy job.runs_on runner.labels

    -- The loop over the eligible jobs.
    unfoldable pub assign_each : List Runner → List Job → List ℕ → World → World
    assign_each idle [] used w = w
    assign_each idle (job ∷ jobs) used w =
        let (used', w') = assign_to job used w (find (fits job used) idle) in
        assign_each idle jobs used' w'

    unfoldable pub assign_eligible : List ℕ → World → World
    assign_eligible connected w =
        let idle = find_idle_by_ids connected w.tables.runners in
        let eligible = find_eligible assign_batch w.tables in
        if is_empty connected || is_empty idle || is_empty eligible
        then w
        else assign_each idle eligible [] w

    -- `pass`; `connected_ids` says which runners the hub has when the jobs are assigned.
    unfoldable pub schedule : (List Effect → List ℕ) → World → World
    schedule connected_ids w =
        let swept = sweep_timeouts (sweep_stale_runners (revert_unacked w)) in
        assign_eligible (connected_ids swept.effects) swept
