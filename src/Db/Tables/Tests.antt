-- ===== src/Db/Tables/Tests.antt =====
-- The theorems on the tables at a small state: one workspace, one pipeline, two jobs, two runners.
use overup.Prelude.{
  ℕ, ◌≡◌, ◌≢◌, map, refl, true, false, none, some, List, [], ◌∷◌, codes, arith, All, inl,
}
use overup.Db.Rows.{
  Status, in_progress, success, failure, Stage, running, Job, Runner, idle, busy, disabled,
  secrets_unavailable,
}
use overup.Db.Statements.{apply}
use overup.Db.Jobs.Valid.{
  IsValid, JobOp, claim, ack, finish_from_runner, force_finish, requeue_orphans, sql,
  execute-IsValid,
}
use overup.Db.Jobs.History.{run, run-Evolves, run-IsValid, Each, Evolves}
use overup.Db.Jobs
use overup.Db.Runners
use overup.Db.Runners.{is_available}
use overup.Db.Runners.Lifecycle as Lifecycle
use overup.Db.Runners.Lifecycle.{
  RunnerOp, drained_idle_is_lost, reconnect_undoes_disable, AnyOp, lifecycle, run_any,
  revoked_is_final,
}
use overup.Db.Tables.{Tables, claim_for_runner, release_all, finish_with}
use overup.Db.Tables.Load.{load}
use overup.Db.Tables.Exclusive.{Exclusive}
use overup.Db.Tables.Steps.{claims, Reaches, here, next}
use overup.Db.Tables.Claim.{claim-Exclusive}
use overup.Db.Tables.Composed.{at_rest, Reaches-trans, fail_dispatch, fail_dispatch-Reaches}
use overup.Db.Tables.Sound.{Sound}
use overup.Db.Tables.Reachable.{Exclusive-Sound, Reaches-Sound}
use overup.Db.Tables.Races.{AtWork, two_jobs, resume_double_assigns, reconnect_double_assigns}

abbrev waiting_job : ℕ → Job
waiting_job n = record {
  id = n;
  pipeline_id = 1;
  job_key = codes "build";
  runs_on = [];
  needs = [];
  status = Status.queued;
  conclusion = none;
  stage = Stage.queued;
  runner_id = none;
  attempt = 1;
  exit_code = none;
  error_category = none;
  timeout_seconds = 60;
  log_bytes = 0;
  position = n;
  metrics = none;
  logs_archived_at = none;
  logs_archive_backend = none;
  queued_at = 5;
  assigned_at = none;
  started_at = none;
  finished_at = none;
}

abbrev running_job : ℕ → Job
running_job n = record (waiting_job n) {
  status = in_progress;
  stage = running;
  runner_id = some 7;
  assigned_at = some 6;
  started_at = some 6;
}

abbrev idle_runner : ℕ → Runner
idle_runner n = record {
  id = n;
  workspace_id = 1;
  name = codes "r";
  labels = [];
  status = idle;
  version = none;
  last_seen_at = some 5;
  revoked_at = none;
  draining_at = none;
}

abbrev busy_runner : Runner
busy_runner = record (idle_runner 7) { status = busy }

abbrev two_waiting : Tables
two_waiting = record {
  jobs = waiting_job 1 ∷ waiting_job 2 ∷ [];
  runners = idle_runner 7 ∷ [];
  pipelines = [];
}

waiting-IsValid : (n : ℕ) → IsValid (waiting_job n)
waiting-IsValid n = ground arith

running-IsValid : (n : ℕ) → IsValid (running_job n)
running-IsValid n = ground arith

two_waiting-Exclusive : Exclusive two_waiting
two_waiting-Exclusive = record {
  valid = (waiting-IsValid 1, (waiting-IsValid 2, tt));
  distinct = λ id. ground arith;
  single = λ r. ground arith;
  free = (λ _. refl, tt);
}

execute-IsValid_example :
    All IsValid
      (apply (sql (ack 9 1 7)) (running_job 1) ∷ apply (sql (ack 9 1 7)) (waiting_job 2) ∷ [])
execute-IsValid_example =
    execute-IsValid (ack 9 1 7) (running_job 1 ∷ waiting_job 2 ∷ [])
      (running-IsValid 1, (waiting-IsValid 2, tt))

abbrev ops : List JobOp
ops =
    requeue_orphans 7
    ∷ claim 20 1 7
    ∷ finish_from_runner 30 1 7 success (some 0) none none
    ∷ force_finish 40 1 failure none
    ∷ []

run-IsValid_example : All IsValid (run ops (running_job 1 ∷ waiting_job 2 ∷ []))
run-IsValid_example =
    run-IsValid ops (running_job 1 ∷ waiting_job 2 ∷ [])
      (running-IsValid 1, (waiting-IsValid 2, tt))

run-Evolves_example :
    Each Evolves (running_job 1 ∷ waiting_job 2 ∷ []) (run ops (running_job 1 ∷ waiting_job 2 ∷ []))
run-Evolves_example = run-Evolves ops (running_job 1 ∷ waiting_job 2 ∷ [])

abbrev once_claimed : Tables
once_claimed = (claim_for_runner 9 1 7 two_waiting).0

abbrev once_failed : Tables
once_failed = fail_dispatch 9 1 7 secrets_unavailable once_claimed

claimed-Exclusive : Exclusive once_claimed
claimed-Exclusive = claim-Exclusive 9 1 7 two_waiting two_waiting-Exclusive

-- A job is claimed, its dispatch fails, and the other job is claimed.
claim_fail_claim : Reaches (at_rest two_waiting) (at_rest (claim_for_runner 10 2 7 once_failed).0)
unfolding claim_for_runner
claim_fail_claim =
    next
      (Reaches-trans (next here (claims 9 1 7 refl)) (
        fail_dispatch-Reaches 9 7 secrets_unavailable
          ((Jobs.claim_job 9 1 7).change (waiting_job 1)) once_claimed claimed-Exclusive (inl refl)
          refl))
      (claims 10 2 7 refl)

Reaches-Sound_example : Sound (at_rest (claim_for_runner 10 2 7 once_failed).0)
Reaches-Sound_example = Reaches-Sound (Exclusive-Sound _ two_waiting-Exclusive) claim_fail_claim

-- The runner has the second job then, and no other.
failure_frees_runner : load 7 (claim_for_runner 10 2 7 once_failed).0.jobs ≡ 1
unfolding claim_for_runner finish_with release_all
failure_frees_runner = refl

-- The claim does happen, and the same runner is not claimed again.
claim_assigns : load 7 (claim_for_runner 9 1 7 two_waiting).0.jobs ≡ 1
unfolding claim_for_runner
claim_assigns = refl

second_claim_fails : (claim_for_runner 10 2 7 (claim_for_runner 9 1 7 two_waiting).0).1 ≡ none
unfolding claim_for_runner
second_claim_fails = refl

abbrev later_ops : List RunnerOp
later_ops =
    Lifecycle.mark_connected 30 7 (codes "2")
    ∷ Lifecycle.disable 1 7
    ∷ Lifecycle.resume 1 7 true
    ∷ Lifecycle.release 7
    ∷ []

drained_idle_is_lost_example :
    is_available
      (7 ∷ [])
      (Lifecycle.run later_ops (apply (Runners.drain_start 9 1 7) (idle_runner 7)))
    ≡ false
drained_idle_is_lost_example =
    drained_idle_is_lost 9 1 (idle_runner 7) later_ops (7 ∷ []) refl refl refl refl

reconnect_undoes_disable_example :
    let off = apply (Runners.disable 1 7) (idle_runner 7) in
    (off.status ≡ disabled)
    × (is_available (7 ∷ []) (apply (Runners.mark_connected 9 7 (codes "2")) off) ≡ true)
reconnect_undoes_disable_example =
    reconnect_undoes_disable 9 1 (codes "2") (idle_runner 7) [] refl refl refl

abbrev after_revoke : List AnyOp
after_revoke = AnyOp.claim 7 ∷ map lifecycle later_ops

revoked_is_final_example :
    let off = run_any after_revoke (apply (Runners.revoke 9 1 7) busy_runner) in
    (is_available (7 ∷ []) off ≡ false)
    × (off.status ≢ idle)
    × (off.status ≢ busy)
    × ((Runners.claim_runner 7).guard off ≡ false)
revoked_is_final_example = revoked_is_final 9 1 busy_runner after_revoke (7 ∷ []) refl refl

at_work : AtWork (running_job 1) (waiting_job 2) busy_runner
at_work = record {
  works = refl;
  there = refl;
  waits = refl;
  nowhere = refl;
  other = refl;
  is_busy = refl;
  live = refl;
}

resume_double_assigns_example :
    load 7
      (claim_for_runner 9 2 7 (
        two_jobs
          (running_job 1)
          (waiting_job 2)
          (apply (Runners.resume 1 7 true) (apply (Runners.disable 1 7) busy_runner)))).0.jobs
    ≡ 2
resume_double_assigns_example =
    resume_double_assigns (running_job 1) (waiting_job 2) busy_runner at_work 9

reconnect_double_assigns_example :
    load 7
      (claim_for_runner 9 2 7 (
        two_jobs
          (running_job 1)
          (waiting_job 2)
          (apply (Runners.mark_connected 9 7 (codes "2")) busy_runner))).0.jobs
    ≡ 2
reconnect_double_assigns_example =
    reconnect_double_assigns (running_job 1) (waiting_job 2) busy_runner at_work 9 (codes "2")
