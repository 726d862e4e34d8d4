-- ===== src/Db/Tables/Load.antt =====
-- How many jobs a runner has in progress, and how each statement changes that number
-- (backend/src/db/pipeline_jobs.rs).
use mathlib.Core.Bool.{false≢true}
use overup.Prelude.{
  ℕ, suc, ◌+◌, ◌≤◌, ◌≡◌, refl, sym, ◌∙◌, subst, ==_refl, Bool, true, false, ◌&&◌, some, List, [],
  ◌∷◌, if◌then◌else◌, filter, ◌==◌, arith, All, In, ◌⊎◌, inl, inr, Bool-cases,
}
use overup.Db.Rows.{Job, is_in_progress, equals}
use overup.Db.Statements.{Update, apply, execute}
use overup.Db.Jobs
use overup.Db.Jobs.Valid.{IsValid}
use overup.Db.Tables.{runner_ids}

-- The job is in progress on the runner.
abbrev pub occupies : ℕ → Job → Bool
occupies runner_id j = is_in_progress j.status && equals j.runner_id runner_id

abbrev pub count : (Job → Bool) → List Job → ℕ
count p [] = 0
count p (j ∷ jobs) = if p j then suc (count p jobs) else count p jobs

abbrev pub load : ℕ → List Job → ℕ
load runner_id jobs = count (occupies runner_id) jobs

abbrev pub with_id : ℕ → List Job → ℕ
with_id job_id jobs = count (λ j. j.id == job_id) jobs

pub count_step :
    (b b' : Bool) (m n : ℕ)
    → m ≤ n
    → (b ≡ true → b' ≡ true)
    → (if b then suc m else m) ≤ (if b' then suc n else n)
count_step true b' m n h k = rw (k refl) (omega arith)
count_step false true m n h k = omega arith
count_step false false m n h k = h

drop_step :
    (b b' : Bool) (m n : ℕ)
    → suc m ≤ n
    → (b ≡ true → b' ≡ true)
    → suc (if b then suc m else m) ≤ (if b' then suc n else n)
drop_step true b' m n h k = rw (k refl) (omega arith)
drop_step false true m n h k = omega arith
drop_step false false m n h k = h

-- A statement that ends or requeues jobs: the rows that it changes keep their id and were in progress
-- if they have a runner, and no runner has them afterwards.
pub record Stops (u : Update Job) : Type 0 where
  pub same_id : (j : Job) → u.guard j ≡ true → (u.change j).id ≡ j.id
  pub stops : (r : ℕ) (j : Job) → u.guard j ≡ true → occupies r (u.change j) ≡ false
  pub had :
      (r : ℕ) (j : Job)
      → u.guard j ≡ true
      → IsValid j
      → equals j.runner_id r ≡ true
      → occupies r j ≡ true
  pub stays_valid : (j : Job) → IsValid j → IsValid (apply u j)

module _ (u : Update Job) (st : Stops u) where
  apply_off : (r : ℕ) (j : Job) → occupies r (apply u j) ≡ true → occupies r j ≡ true
  apply_off r j h = elim (Bool-cases (u.guard j)) [
    | inl hit ↦ absurd (false≢true (sym (st.stops r j hit) ∙ (rw hit at h)))
    | inr miss ↦ rw miss at h
  ]

  pub load-le : (r : ℕ) (jobs : List Job) → load r (execute u jobs) ≤ load r jobs
  load-le r [] = omega arith
  load-le r (j ∷ jobs) =
      count_step (occupies r (apply u j)) (occupies r j) _ _ (load-le r jobs) (apply_off r j)

  load_drop :
      (r : ℕ) (j : Job) (m n : ℕ)
      → m ≤ n
      → u.guard j ≡ true
      → occupies r j ≡ true
      → suc (if occupies r (apply u j) then suc m else m) ≤ (if occupies r j then suc n else n)
  load_drop r j m n h hit on = rw (hit, st.stops r j hit, on) (omega arith)

  -- A runner that is freed has one job fewer.
  pub load_freed :
      (r : ℕ) (jobs : List Job)
      → All IsValid jobs
      → In (some r) (runner_ids (filter u.guard jobs))
      → suc (load r (execute u jobs)) ≤ load r jobs
  load_freed r [] v h = absurd h
  load_freed r (j ∷ jobs) (v, vs) h = elim (Bool-cases (u.guard j)) [
    | inr miss ↦
        drop_step (occupies r (apply u j)) (occupies r j) _ _ (load_freed r jobs vs (rw miss at h))
          (apply_off r j)
    | inl hit ↦ elim (split hit) [
      | inl e ↦
          load_drop r j _ _ (load-le r jobs) hit
            (st.had r j hit v (subst (λ o. equals o r ≡ true) e (==_refl r)))
      | inr later ↦
          drop_step (occupies r (apply u j)) (occupies r j) _ _ (load_freed r jobs vs later)
            (apply_off r j)
    ]
  ]
    where
      split :
          u.guard j ≡ true → (some r ≡ j.runner_id) ⊎ In (some r) (runner_ids (filter u.guard jobs))
      split hit = rw hit at h

-- A claim brings its runner at most the jobs of its id.
pub load-claim :
    (now job_id runner_id r : ℕ) (jobs : List Job)
    → load r (execute (Jobs.claim_job now job_id runner_id) jobs)
      ≤ load r jobs + (if runner_id == r then with_id job_id jobs else 0)
load-claim now job_id runner_id r [] = ground arith
load-claim now job_id runner_id r (j ∷ jobs) =
    ground (arith, load-claim now job_id runner_id r jobs)
