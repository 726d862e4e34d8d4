-- ===== src/Db/Tables/Exclusive.antt =====
-- No runner has two jobs in progress: the invariant that the two-row claim of
-- backend/src/db/pipeline_jobs.rs keeps, with the releases of backend/src/services.
use overup.Prelude.{
  ℕ, ◌≤◌, ◌≡◌, refl, subst, Bool, true, ◌&&◌, Option, none, some, List, [], ◌∷◌, filter, arith, All,
  In, ◌⊎◌, inl, inr, Bool-cases,
}
use overup.Db.Rows.{Job, Runner, is_idle, is_null}
use overup.Db.Statements.{Update, apply, execute, returning}
use overup.Db.Jobs.Valid.{IsValid}
use overup.Db.Runners
use overup.Db.Tables.{Tables, release_all, runner_ids, finish_with, requeue_with}
use overup.Db.Tables.Load.{load, with_id, Stops, load-le, load_freed}

-- A runner that a claim would accept.
abbrev pub is_claimable : Runner → Bool
is_claimable r = is_idle r.status && is_null r.revoked_at

-- Such a runner has no job in progress.
abbrev pub IdleFree : List Job → Runner → Type 0
IdleFree jobs r = is_claimable r ≡ true → load r.id jobs ≡ 0

pub record Exclusive (db : Tables) : Type 0 where
  pub valid : All IsValid db.jobs
  pub distinct : (job_id : ℕ) → with_id job_id db.jobs ≤ 1
  pub single : (runner_id : ℕ) → load runner_id db.jobs ≤ 1
  pub free : All (IdleFree db.jobs) db.runners

abbrev pub Freed : List Job → Option ℕ → Type 0
Freed jobs none = Unit
Freed jobs (some id) = load id jobs ≡ 0

-- A statement on runners under which a runner becomes idle only if it has no job in progress.
pub runners_free :
    (jobs : List Job) (u : Update Runner) (runners : List Runner)
    → ((r : Runner) → (apply u r).id ≡ r.id)
    → ((r : Runner)
        → is_claimable (apply u r) ≡ true
        → (is_claimable r ≡ true) ⊎ (load r.id jobs ≡ 0))
    → All (IdleFree jobs) runners
    → All (IdleFree jobs) (execute u runners)
runners_free jobs u [] same idle f = tt
runners_free jobs u (r ∷ runners) same idle (f, fs) =
    (row, runners_free jobs u runners same idle fs)
  where
    row : IdleFree jobs (apply u r)
    row h = rw (same r) (elim (idle r h) [ inl i ↦ f i | inr z ↦ z ])

release_id : (id : ℕ) (r : Runner) → (apply (Runners.release id) r).id ≡ r.id
release_id id r = ground arith

release_idle :
    (id : ℕ) (r : Runner)
    → is_claimable (apply (Runners.release id) r) ≡ true
    → (is_claimable r ≡ true) ⊎ (id ≡ r.id)
release_idle id r h = ground arith

release_free :
    (jobs : List Job) (id : ℕ) (runners : List Runner)
    → load id jobs ≡ 0
    → All (IdleFree jobs) runners
    → All (IdleFree jobs) (execute (Runners.release id) runners)
release_free jobs id runners h f =
    runners_free jobs (Runners.release id) runners (release_id id)
      (λ r i. elim (release_idle id r i) [
        | inl idle ↦ inl idle
        | inr e ↦ inr (subst (λ k. load k jobs ≡ 0) e h)
      ])
      f

release_all_free :
    (jobs : List Job) (ids : List (Option ℕ)) (runners : List Runner)
    → All (Freed jobs) ids
    → All (IdleFree jobs) runners
    → All (IdleFree jobs) (release_all ids runners)
unfolding release_all
release_all_free jobs [] runners h f = f
release_all_free jobs (none ∷ ids) runners (_, hs) f = release_all_free jobs ids runners hs f
release_all_free jobs (some id ∷ ids) runners (h, hs) f =
    release_all_free jobs ids _ hs (release_free jobs id runners h f)

pub free-le :
    (jobs jobs' : List Job) (runners : List Runner)
    → ((r : ℕ) → load r jobs' ≤ load r jobs)
    → All (IdleFree jobs) runners
    → All (IdleFree jobs') runners
free-le jobs jobs' [] h f = tt
free-le jobs jobs' (r ∷ runners) h (f, fs) =
    (λ i. omega (arith, h r.id, f i), free-le jobs jobs' runners h fs)

pub with_id-execute :
    (u : Update Job) (job_id : ℕ) (jobs : List Job)
    → ((j : Job) → u.guard j ≡ true → (u.change j).id ≡ j.id)
    → with_id job_id (execute u jobs) ≡ with_id job_id jobs
with_id-execute u job_id [] same = refl
with_id-execute u job_id (j ∷ jobs) same =
    let row : (apply u j).id ≡ j.id = elim (Bool-cases (u.guard j)) [
      | inl hit ↦ rw hit (same j hit)
      | inr miss ↦ rw miss refl
    ] in
    rw (row, with_id-execute u job_id jobs same) refl

All-IsValid :
    (u : Update Job) (jobs : List Job) → Stops u → All IsValid jobs → All IsValid (execute u jobs)
All-IsValid u [] st v = tt
All-IsValid u (j ∷ jobs) st (v, vs) = (st.stays_valid j v, All-IsValid u jobs st vs)

-- The runners of the rows that the statement stops have no job left.
pub Freed-rows :
    (u : Update Job) (st : Stops u) (jobs : List Job)
    → All IsValid jobs
    → ((r : ℕ) → load r jobs ≤ 1)
    → (ids : List (Option ℕ))
    → ((r : ℕ) → In (some r) ids → In (some r) (runner_ids (filter u.guard jobs)))
    → All (Freed (execute u jobs)) ids
Freed-rows u st jobs v single [] sub = tt
Freed-rows u st jobs v single (none ∷ ids) sub =
    (tt, Freed-rows u st jobs v single ids (λ r i. sub r (inr i)))
Freed-rows u st jobs v single (some id ∷ ids) sub = (
  omega (arith, load_freed u st id jobs v (sub id (inl refl)), single id),
  Freed-rows u st jobs v single ids (λ r i. sub r (inr i)),
)

-- Stopping jobs and releasing their runners, as they were read from the rows.
pub requeue_with-Exclusive :
    (u : Update Job) (st : Stops u) (db : Tables) → Exclusive db → Exclusive (requeue_with u db)
unfolding requeue_with
requeue_with-Exclusive u st db e = record {
  valid = All-IsValid u db.jobs st e.valid;
  distinct = λ id. rw (with_id-execute u id db.jobs st.same_id) (e.distinct id);
  single = λ r. omega (arith, load-le u st r db.jobs, e.single r);
  free =
      release_all_free (execute u db.jobs) (runner_ids (filter u.guard db.jobs)) db.runners
        (Freed-rows u st db.jobs e.valid e.single (runner_ids (filter u.guard db.jobs)) (λ r i. i))
        (free-le db.jobs (execute u db.jobs) db.runners (λ r. load-le u st r db.jobs) e.free);
}

-- A terminal statement leaves the runner column as it is, so the rows that it returns name the same
-- runners as the old ones.
abbrev pub KeepsRunner : Update Job → Type 0
KeepsRunner u = (j : Job) → u.guard j ≡ true → (u.change j).runner_id ≡ j.runner_id

returning_ids :
    (u : Update Job) (jobs : List Job)
    → KeepsRunner u
    → runner_ids (returning u jobs) ≡ runner_ids (filter u.guard jobs)
returning_ids u [] keep = refl
returning_ids u (j ∷ jobs) keep = elim (Bool-cases (u.guard j)) [
  | inl hit ↦ rw hit (rw (keep j hit, returning_ids u jobs keep) refl)
  | inr miss ↦ rw miss (returning_ids u jobs keep)
]

pub finish_with-requeue_with :
    (u : Update Job) (db : Tables) → KeepsRunner u → finish_with u db ≡ requeue_with u db
unfolding finish_with requeue_with
finish_with-requeue_with u db keep = rw (returning_ids u db.jobs keep) refl

pub finish_with-Exclusive :
    (u : Update Job) (st : Stops u) (keep : KeepsRunner u) (db : Tables)
    → Exclusive db
    → Exclusive (finish_with u db)
finish_with-Exclusive u st keep db e =
    rw (finish_with-requeue_with u db keep) (requeue_with-Exclusive u st db e)
