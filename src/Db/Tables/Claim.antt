-- ===== src/Db/Tables/Claim.antt =====
-- The two-row claim (`claim_for_runner` of backend/src/db/pipeline_jobs.rs): all or nothing, and never a
-- second job for a runner.
use overup.Prelude.{
  ℕ, ◌≤◌, ◌≡◌, refl, subst, true, false, some, List, [], ◌∷◌, ◌==◌, ==_iff, arith, All, inl, inr,
  Bool-cases, Option-cases,
}
use overup.Db.Rows.{Job, Runner}
use overup.Db.Statements.{apply, execute, returning, first}
use overup.Db.Jobs
use overup.Db.Jobs.Valid.{claim, execute-IsValid}
use overup.Db.Runners
use overup.Db.Tables.{Tables, claim_for_runner}
use overup.Db.Tables.Load.{load, with_id, load-claim}
use overup.Db.Tables.Exclusive.{is_claimable, IdleFree, Exclusive, with_id-execute}

-- A claim that finds a runner row finds one with no job in progress.
claimed_free :
    (jobs : List Job) (runner_id : ℕ) (runners : List Runner) {r : Runner}
    → first (returning (Runners.claim_runner runner_id) runners) ≡ some r
    → All (IdleFree jobs) runners
    → load runner_id jobs ≡ 0
claimed_free jobs runner_id [] h f = cc
claimed_free jobs runner_id (x ∷ runners) h (f, fs) =
    elim (Bool-cases ((Runners.claim_runner runner_id).guard x)) [
      | inr miss ↦ claimed_free jobs runner_id runners (rw miss at h) fs
      | inl hit ↦
          let same : x.id ≡ runner_id = ground arith in
          subst (λ k. load k jobs ≡ 0) same (f (ground arith))
    ]

module _ (now job_id runner_id : ℕ) (jobs : List Job) (runners : List Runner) where
  abbrev jobs' : List Job
  jobs' = execute (Jobs.claim_job now job_id runner_id) jobs

  single_after :
      with_id job_id jobs ≤ 1
      → load runner_id jobs ≡ 0
      → ((r : ℕ) → load r jobs ≤ 1)
      → (r : ℕ) → load r jobs' ≤ 1
  single_after one none_here single r = elim (Bool-cases (runner_id == r)) [
    | inl e ↦
        let same : runner_id ≡ r = (==_iff runner_id r).0 e in
        let bound = rw e at (load-claim now job_id runner_id r jobs) in
        omega (arith, subst (λ k. load k jobs ≡ 0) same none_here)
    | inr e ↦
        let bound = rw e at (load-claim now job_id runner_id r jobs) in omega (arith, single r)
  ]

  free_after :
      (rows : List Runner)
      → All (IdleFree jobs) rows
      → All (IdleFree jobs') (execute (Runners.claim_runner runner_id) rows)
  free_after [] f = tt
  free_after (r ∷ rows) (f, fs) = (row, free_after rows fs)
    where
      row : IdleFree jobs' (apply (Runners.claim_runner runner_id) r)
      row h =
          let other : runner_id == r.id ≡ false = ground arith in
          let same : (apply (Runners.claim_runner runner_id) r).id ≡ r.id = ground arith in
          let was : is_claimable r ≡ true = ground arith in
          let bound = rw other at (load-claim now job_id runner_id r.id jobs) in
          rw same (omega (arith, f was))

-- A claim, whether it succeeds or not, keeps every row valid and leaves no runner with two jobs in
-- progress and no claimable runner with one.
pub claim-Exclusive :
    (now job_id runner_id : ℕ) (db : Tables)
    → Exclusive db
    → Exclusive (claim_for_runner now job_id runner_id db).0
unfolding claim_for_runner
claim-Exclusive now job_id runner_id db e =
    elim (Option-cases (first (returning (Jobs.claim_job now job_id runner_id) db.jobs))) [
      | inl no_job ↦ rw no_job e
      | inr (job, a_job) ↦
          elim (Option-cases (first (returning (Runners.claim_runner runner_id) db.runners))) [
            | inl no_runner ↦ rw (a_job, no_runner) e
            | inr (runner, a_runner) ↦
                rw (a_job, a_runner)
                  (record {
                    valid = execute-IsValid (claim now job_id runner_id) db.jobs e.valid;
                    distinct = λ id.
                        rw
                          (with_id-execute (Jobs.claim_job now job_id runner_id) id db.jobs
                            (λ j h. refl))
                          (e.distinct id);
                    single =
                        single_after now job_id runner_id db.jobs db.runners (e.distinct job_id)
                          (claimed_free db.jobs runner_id db.runners a_runner e.free) e.single;
                    free = free_after now job_id runner_id db.jobs db.runners db.runners e.free;
                  })
          ]
    ]
