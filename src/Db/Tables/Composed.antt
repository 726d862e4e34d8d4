-- ===== src/Db/Tables/Composed.antt =====
-- The sequences of statements that backend/src/services/pipeline_run.rs and scheduler.rs run on jobs and runners
-- together, each as steps of the control plane: they release a runner only when it has no other job.
use overup.Prelude.{
  ℕ, suc, ◌≤◌, ◌≡◌, refl, subst, Bool, true, false, ◌||◌, Option, none, some, List, [], ◌∷◌, filter,
  arith, All, In, inl, inr,
}
use overup.Db.Rows.{Job, JobConclusion, ErrorCategory, equals}
use overup.Db.Statements.{execute}
use overup.Db.Jobs
use overup.Db.Jobs.Valid.{
  IsValid, JobOp, claim, unclaim, revert_unacked, finish_from_runner, force_finish, requeue_orphans,
  fail_orphans, sql, apply-IsValid,
}
use overup.Db.Runners
use overup.Db.Runners.Lifecycle as Lifecycle
use overup.Db.Tables.{Tables, release_all, runner_ids, finish_with, requeue_with, lose_runner}
use overup.Db.Tables.Load.{occupies, load, Stops}
use overup.Db.Tables.Exclusive.{Exclusive, Freed, Freed-rows, KeepsRunner, finish_with-requeue_with}
use overup.Db.Tables.Steps.{
  is_claim, State, other_load, with_jobs, with_runners, changes, manages, gives_up, ends, frees,
  Reaches, here, next,
}
use overup.Db.Tables.Sound.{sql_id, other_load-le}
use overup.Db.Tables.Reachable.{Exclusive-Sound, Sound-Exclusive, Reaches-Sound}

abbrev pub at_rest : Tables → State
at_rest db = record { db = db; held = none }

pub Reaches-trans : {s t u : State} → Reaches s t → Reaches t u → Reaches s u
Reaches-trans r here = r
Reaches-trans r (next q st) = next (Reaches-trans r q) st

-- The terminal statements, after which `on_job_finished` releases the runner.
abbrev pub is_terminal : JobOp → Bool
is_terminal (finish_from_runner now job runner c e cat m) = true
is_terminal (force_finish now job c cat) = true
is_terminal (fail_orphans now runner) = true
is_terminal _ = false

-- The statements that give a job back with its runner.
abbrev pub is_requeue : JobOp → Bool
is_requeue (unclaim job) = true
is_requeue (revert_unacked now cutoff) = true
is_requeue _ = false

abbrev stops_jobs : JobOp → Bool
stops_jobs op = is_terminal op || is_requeue op

op_stops :
    (op : JobOp) (r : ℕ) (j : Job)
    → stops_jobs op ≡ true
    → (sql op).guard j ≡ true
    → occupies r ((sql op).change j) ≡ false
op_stops (claim now job_id runner_id) r j t h = cc
op_stops _ r j t h = ground arith

op_had :
    (op : JobOp) (r : ℕ) (j : Job)
    → stops_jobs op ≡ true
    → (sql op).guard j ≡ true
    → IsValid j
    → equals j.runner_id r ≡ true
    → occupies r j ≡ true
op_had (claim now job_id runner_id) r j t h v e = cc
op_had _ r j t h v e = ground arith

op-Stops : (op : JobOp) → stops_jobs op ≡ true → Stops (sql op)
op-Stops op t = record {
  same_id = λ j h. sql_id op j;
  stops = λ r j h. op_stops op r j t h;
  had = λ r j h v e. op_had op r j t h v e;
  stays_valid = apply-IsValid op;
}

terminal-KeepsRunner : (op : JobOp) → is_terminal op ≡ true → KeepsRunner (sql op)
terminal-KeepsRunner (finish_from_runner now job runner c e cat m) t j h = refl
terminal-KeepsRunner (force_finish now job c cat) t j h = refl
terminal-KeepsRunner (fail_orphans now runner) t j h = refl
terminal-KeepsRunner _ t j h = cc

stops_no_claim : (op : JobOp) → stops_jobs op ≡ true → is_claim op ≡ false
stops_no_claim (claim now job_id runner_id) t = cc
stops_no_claim _ t = refl

-- Runners that have no job in progress are released one after the other.
release_all-Reaches :
    (ids : List (Option ℕ)) (s : State)
    → All (Freed s.db.jobs) ids
    → Reaches s (with_runners s (release_all ids s.db.runners))
unfolding release_all
release_all-Reaches [] s f = here
release_all-Reaches (none ∷ ids) s (_, f) = release_all-Reaches ids s f
release_all-Reaches (some id ∷ ids) s (h, f) =
    Reaches-trans (next here (frees id (omega (arith, other_load-le s.held id s.db.jobs, h))))
      (release_all-Reaches ids (with_runners s (execute (Runners.release id) s.db.runners)) f)

-- A statement that stops jobs, and the releases of the runners that had them.
pub requeue_with-Reaches :
    (op : JobOp) (db : Tables)
    → stops_jobs op ≡ true
    → Exclusive db
    → Reaches (at_rest db) (at_rest (requeue_with (sql op) db))
unfolding requeue_with
requeue_with-Reaches op db t e = Reaches-trans (next here (changes op (stops_no_claim op t))) (
    release_all-Reaches (runner_ids (filter (sql op).guard db.jobs))
      (with_jobs (at_rest db) (execute (sql op) db.jobs))
      (Freed-rows (sql op) (op-Stops op t) db.jobs e.valid e.single
        (runner_ids (filter (sql op).guard db.jobs)) (λ r i. i)))

pub finish_with-Reaches :
    (op : JobOp) (db : Tables)
    → is_terminal op ≡ true
    → Exclusive db
    → Reaches (at_rest db) (at_rest (finish_with (sql op) db))
finish_with-Reaches op db t e =
    rw (finish_with-requeue_with (sql op) db (terminal-KeepsRunner op t))
      (requeue_with-Reaches op db (rw t refl) e)

-- A lost runner goes offline, its jobs are put back, and those on their last attempt fail.
pub lose_runner-Reaches :
    (now id : ℕ) (db : Tables)
    → Exclusive db
    → Reaches (at_rest db) (at_rest (lose_runner now id db))
unfolding lose_runner
lose_runner-Reaches now id db e =
    let off : Reaches (at_rest db) (
        at_rest (record db {
          jobs = execute (Jobs.requeue_orphans id) db.jobs;
          runners = execute (Runners.mark_offline id) db.runners;
        })) =
      next (next here (manages (Lifecycle.mark_offline id) refl))
        (changes (requeue_orphans id) refl) in
    Reaches-trans off (
      finish_with-Reaches (fail_orphans now id) _ refl
        (Sound-Exclusive _ refl (Reaches-Sound (Exclusive-Sound (at_rest db) e) off)))

-- The runner of a job has no other job.
other_load-lt :
    (r : ℕ) (j : Job) (jobs : List Job)
    → In j jobs
    → occupies r j ≡ true
    → suc (other_load (some j.id) r jobs) ≤ load r jobs
other_load-lt r j [] i h = absurd i
other_load-lt r j (k ∷ jobs) (inl e) h =
    let le = other_load-le (some j.id) r jobs in
    subst (λ k. suc (other_load (some j.id) r (k ∷ jobs)) ≤ load r (k ∷ jobs)) e (ground arith)
other_load-lt r j (k ∷ jobs) (inr i) h = let le = other_load-lt r j jobs i h in ground arith

-- What `assign_eligible` does to the tables when the dispatch of a claimed job fails for good: the runner is
-- released first, then the job is finished, and `on_job_finished` releases the runner again.
abbrev pub fail_dispatch : ℕ → ℕ → ℕ → ErrorCategory → Tables → Tables
fail_dispatch now job_id runner_id category db =
    finish_with (Jobs.force_finish now job_id JobConclusion.failure (some category))
      (record db { runners = execute (Runners.release runner_id) db.runners })

pub fail_dispatch-Reaches :
    (now r : ℕ) (category : ErrorCategory) (j : Job) (db : Tables)
    → Exclusive db
    → In j db.jobs
    → occupies r j ≡ true
    → Reaches (at_rest db) (at_rest (fail_dispatch now j.id r category db))
unfolding requeue_with
fail_dispatch-Reaches now r category j db e i h =
    let op = force_finish now j.id JobConclusion.failure (some category) in
    let alone : other_load (some j.id) r db.jobs ≡ 0 =
      omega (arith, other_load-lt r j db.jobs i h, e.single r) in
    let released : Tables = record db { runners = execute (Runners.release r) db.runners } in
    let ended : Reaches (at_rest db) (with_jobs (at_rest released) (execute (sql op) db.jobs)) =
      next (next (next here (gives_up j.id refl)) (frees r alone))
        (ends now j.id JobConclusion.failure (some category) refl) in
    rw (finish_with-requeue_with (sql op) released (terminal-KeepsRunner op refl)) (
      Reaches-trans ended (
        release_all-Reaches (runner_ids (filter (sql op).guard db.jobs))
          (with_jobs (at_rest released) (execute (sql op) db.jobs))
          (Freed-rows (sql op) (op-Stops op refl) db.jobs e.valid e.single
            (runner_ids (filter (sql op).guard db.jobs)) (λ r i. i))))
