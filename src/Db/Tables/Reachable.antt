-- ===== src/Db/Tables/Reachable.antt =====
-- What holds in every state that the steps of the control plane reach (backend/src/db, with the tasks of
-- backend/src/services/pipeline_run.rs and scheduler.rs).
use overup.Prelude.{
  ℕ, ◌≤◌, ◌≡◌, ◌∙◌, refl, subst, sym, Bool, true, not, ◌&&◌, Option, none, some, List, [], ◌∷◌,
  arith, ◌⊎◌, inl, inr, Text, All, All-map, Bool-cases, ◌==◌,
}
use overup.Db.Rows.{Job, Runner, JobConclusion, ErrorCategory, equals}
use overup.Db.Statements.{Update, apply, execute}
use overup.Db.Jobs
use overup.Db.Jobs.Valid.{force_finish}
use overup.Db.Creation.{NewPipeline, job_row}
use overup.Plan.{PlannedJob}
use overup.Db.Runners
use overup.Db.Runners.Lifecycle as Lifecycle
use overup.Db.Runners.Lifecycle.{RunnerOp}
use overup.Db.Tables.Load.{occupies, with_id, count_step}
use overup.Db.Tables.Exclusive.{is_claimable, Exclusive}
use overup.Db.Tables.Claim.{claim-Exclusive}
use overup.Db.Tables.Steps.{
  is_calm, State, creates, registers, other_load, with_jobs, with_runners, ◌⟶◌, claims, changes,
  manages, gives_up, ends, frees, connects, resumes, Reaches, here, next,
}
use overup.Db.Tables.Sound.{
  IdleFor, Sound, other_load-none, other_load-le, changes_other, jobs-Sound,
}

-- A statement on runners under which a runner becomes claimable only if it may.
rows_idle :
    (P : ℕ → Type 0) (u : Update Runner) (runners : List Runner)
    → ((r : Runner) → (apply u r).id ≡ r.id)
    → ((r : Runner) → is_claimable (apply u r) ≡ true → (is_claimable r ≡ true) ⊎ P r.id)
    → All (IdleFor P) runners
    → All (IdleFor P) (execute u runners)
rows_idle P u [] same idle f = tt
rows_idle P u (r ∷ runners) same idle (f, fs) = (
  λ h. subst P (sym (same r)) (elim (idle r h) [ inl i ↦ f i | inr z ↦ z ]),
  rows_idle P u runners same idle fs,
)

runners-Sound :
    (u : Update Runner) (s : State)
    → ((r : Runner) → (apply u r).id ≡ r.id)
    → ((r : Runner)
        → is_claimable (apply u r) ≡ true
        → (is_claimable r ≡ true) ⊎ (other_load s.held r.id s.db.jobs ≡ 0))
    → Sound s
    → Sound (with_runners s (execute u s.db.runners))
runners-Sound u s same idle e = record {
  valid = e.valid;
  distinct = e.distinct;
  single = e.single;
  free = rows_idle (λ id. other_load s.held id s.db.jobs ≡ 0) u s.db.runners same idle e.free;
}

calm_id : (op : RunnerOp) (r : Runner) → (apply (Lifecycle.sql op) r).id ≡ r.id
calm_id (Lifecycle.revoke now ws id) r = ground arith
calm_id _ r = ground arith

calm_claimable :
    (op : RunnerOp) (r : Runner)
    → is_calm op ≡ true
    → is_claimable (apply (Lifecycle.sql op) r) ≡ true
    → is_claimable r ≡ true
calm_claimable (Lifecycle.revoke now ws id) r c h = ground arith
calm_claimable _ r c h = ground arith

-- A statement that makes one runner claimable, which has no job but the held one.
arrives-Sound :
    (op : RunnerOp) (id : ℕ) (s : State)
    → ((r : Runner)
        → is_claimable (apply (Lifecycle.sql op) r) ≡ true
        → (is_claimable r ≡ true) ⊎ (id ≡ r.id))
    → other_load s.held id s.db.jobs ≡ 0
    → Sound s
    → Sound (with_runners s (execute (Lifecycle.sql op) s.db.runners))
arrives-Sound op id s idle none_here = runners-Sound (Lifecycle.sql op) s (calm_id op) (λ r h.
    elim (idle r h) [
      | inl i ↦ inl i
      | inr k ↦ inr (subst (λ n. other_load s.held n s.db.jobs ≡ 0) k none_here)
    ])

release_claimable :
    (id : ℕ) (r : Runner)
    → is_claimable (apply (Runners.release id) r) ≡ true
    → (is_claimable r ≡ true) ⊎ (id ≡ r.id)
release_claimable id r h = ground arith

connect_claimable :
    (now id : ℕ) (version : Text) (r : Runner)
    → is_claimable (apply (Runners.mark_connected now id version) r) ≡ true
    → (is_claimable r ≡ true) ⊎ (id ≡ r.id)
connect_claimable now id version r h = ground arith

resume_claimable :
    (ws id : ℕ) (connected : Bool) (r : Runner)
    → is_claimable (apply (Runners.resume ws id connected) r) ≡ true
    → (is_claimable r ≡ true) ⊎ (id ≡ r.id)
resume_claimable ws id connected r h = ground arith

-- With nothing held, a sound state is one in which the runners are exclusive.
pub Sound-Exclusive : (s : State) → s.held ≡ none → Sound s → Exclusive s.db
Sound-Exclusive s h e = record {
  valid = e.valid;
  distinct = e.distinct;
  single = e.single;
  free =
      All-map s.db.runners
        (λ r f i.
          sym (other_load-none r.id s.db.jobs)
          ∙ subst (λ held. other_load held r.id s.db.jobs ≡ 0) h (f i))
        e.free;
}

pub Exclusive-Sound : (s : State) → Exclusive s.db → Sound s
Exclusive-Sound s e = record {
  valid = e.valid;
  distinct = e.distinct;
  single = e.single;
  free =
      All-map s.db.runners (λ r f i. omega (arith, other_load-le s.held r.id s.db.jobs, f i))
        e.free;
}

-- The held job, when it is finished, is on no runner any more.
finished_off :
    (now id : ℕ) (c : JobConclusion) (cat : Option ErrorCategory) (r : ℕ) (j : Job)
    → (occupies r (apply (Jobs.force_finish now id c cat) j)
        && not (equals none (apply (Jobs.force_finish now id c cat) j).id))
      ≡ true
    → (occupies r j && not (equals (some id) j.id)) ≡ true
finished_off now id c cat r j h = ground arith

ends_other :
    (now id : ℕ) (c : JobConclusion) (cat : Option ErrorCategory) (r : ℕ) (jobs : List Job)
    → other_load none r (execute (Jobs.force_finish now id c cat) jobs)
      ≤ other_load (some id) r jobs
ends_other now id c cat r [] = omega arith
ends_other now id c cat r (j ∷ jobs) =
    count_step
      (occupies r (apply (Jobs.force_finish now id c cat) j)
        && not (equals none (apply (Jobs.force_finish now id c cat) j).id))
      (occupies r j && not (equals (some id) j.id)) _ _ (ends_other now id c cat r jobs)
      (finished_off now id c cat r j)

-- A new row of the queue is on no runner.
creates-Sound :
    (new : NewPipeline) (id pipeline_id now : ℕ) (planned : PlannedJob) (s : State)
    → with_id id s.db.jobs ≡ 0
    → Sound s
    → Sound (with_jobs s (job_row new id pipeline_id now planned ∷ s.db.jobs))
creates-Sound new id pipeline_id now planned s fresh e = record {
  valid = (ground arith, e.valid);
  distinct = λ k. elim (Bool-cases (id == k)) [
    | inl hit ↦ rw hit (
        let same : id ≡ k = ground arith in
        omega (arith, subst (λ n. with_id n s.db.jobs ≡ 0) same fresh))
    | inr miss ↦ rw miss (e.distinct k)
  ];
  single = e.single;
  free = e.free;
}

pub step-Sound : {s t : State} → s ⟶ t → Sound s → Sound t
step-Sound {s} (claims now job_id runner_id h) e =
    Exclusive-Sound _ (claim-Exclusive now job_id runner_id s.db (Sound-Exclusive s h e))
step-Sound {s} (creates new id pipeline_id now planned fresh) e =
    creates-Sound new id pipeline_id now planned s fresh e
step-Sound {s} (registers r off) e = record {
  valid = e.valid;
  distinct = e.distinct;
  single = e.single;
  free = (λ h. ground arith, e.free);
}
step-Sound {s} (changes op q) e =
    jobs-Sound op s.held s q (λ r. changes_other op s.held r s.db.jobs q) e
step-Sound {s} (manages op c) e =
    runners-Sound (Lifecycle.sql op) s (calm_id op) (λ r h. inl (calm_claimable op r c h)) e
step-Sound {s} (gives_up job_id h) e = Exclusive-Sound _ (Sound-Exclusive s h e)
step-Sound {s} (ends now job_id c cat h) e =
    jobs-Sound (force_finish now job_id c cat) none s refl
      (λ r.
        subst
          (λ held.
            other_load none r (execute (Jobs.force_finish now job_id c cat) s.db.jobs)
            ≤ other_load held r s.db.jobs)
          (sym h) (ends_other now job_id c cat r s.db.jobs))
      e
step-Sound {s} (frees id z) e = arrives-Sound (Lifecycle.release id) id s (release_claimable id) z e
step-Sound {s} (connects now id version z) e =
    arrives-Sound (Lifecycle.mark_connected now id version) id s (connect_claimable now id version)
      z e
step-Sound {s} (resumes ws id connected z) e =
    arrives-Sound (Lifecycle.resume ws id connected) id s (resume_claimable ws id connected) z e

-- From a sound state, and over single committed statements in any interleaving, the control plane reaches
-- sound states only: no runner has two jobs in progress, and a runner that a claim would accept has none
-- but the one whose failed dispatch the scheduler is ending. The conditions are that the scheduler claims
-- nothing while it ends a dispatch, and that a runner is released, connects or is resumed only while it
-- has no other job in progress; connections and resumptions do not see to that themselves.
pub Reaches-Sound : {s t : State} → Sound s → Reaches s t → Sound t
Reaches-Sound e here = e
Reaches-Sound e (next r st) = step-Sound st (Reaches-Sound e r)
