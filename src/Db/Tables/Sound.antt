-- ===== src/Db/Tables/Sound.antt =====
-- What the steps of the control plane keep of the tables (backend/src/db), and that statements on jobs keep it.
use overup.Prelude.{
  ℕ, ◌≤◌, ◌≡◌, refl, true, false, not, ◌&&◌, Option, none, List, [], ◌∷◌, arith, All, All-map,
}
use overup.Db.Rows.{Job, Runner, equals}
use overup.Db.Statements.{apply, execute}
use overup.Db.Jobs.Valid.{IsValid, JobOp, claim, sql, execute-IsValid}
use overup.Db.Tables.Load.{occupies, load, with_id, count_step}
use overup.Db.Tables.Exclusive.{is_claimable, with_id-execute}
use overup.Db.Tables.Steps.{is_claim, State, other_load, with_jobs}

-- What a claimable runner satisfies, by its id.
abbrev pub IdleFor : (ℕ → Type 0) → Runner → Type 0
IdleFor P r = is_claimable r ≡ true → P r.id

-- Every row is valid and has an id of its own. No runner has two jobs in progress, and a runner that a claim
-- would accept has none but the held one.
pub record Sound (s : State) : Type 0 where
  pub valid : All IsValid s.db.jobs
  pub distinct : (job_id : ℕ) → with_id job_id s.db.jobs ≤ 1
  pub single : (runner_id : ℕ) → load runner_id s.db.jobs ≤ 1
  pub free : All (IdleFor (λ id. other_load s.held id s.db.jobs ≡ 0)) s.db.runners

pub other_load-none : (r : ℕ) (jobs : List Job) → other_load none r jobs ≡ load r jobs
other_load-none r [] = omega arith
other_load-none r (j ∷ jobs) = ground (arith, other_load-none r jobs)

pub other_load-le :
    (held : Option ℕ) (r : ℕ) (jobs : List Job) → other_load held r jobs ≤ load r jobs
other_load-le held r [] = omega arith
other_load-le held r (j ∷ jobs) =
    count_step (occupies r j && not (equals held j.id)) (occupies r j) _ _
      (other_load-le held r jobs) (λ h. ground arith)

pub sql_id : (op : JobOp) (j : Job) → ((sql op).change j).id ≡ j.id
sql_id (claim now job_id runner_id) j = refl
sql_id _ j = refl

-- No statement but a claim gives a runner a job.
other_off :
    (op : JobOp) (held : Option ℕ) (r : ℕ) (j : Job)
    → is_claim op ≡ false
    → (occupies r (apply (sql op) j) && not (equals held (apply (sql op) j).id)) ≡ true
    → (occupies r j && not (equals held j.id)) ≡ true
other_off (claim now job_id runner_id) held r j q h = cc
other_off _ held r j q h = ground arith

pub changes_other :
    (op : JobOp) (held : Option ℕ) (r : ℕ) (jobs : List Job)
    → is_claim op ≡ false
    → other_load held r (execute (sql op) jobs) ≤ other_load held r jobs
changes_other op held r [] q = omega arith
changes_other op held r (j ∷ jobs) q =
    count_step (occupies r (apply (sql op) j) && not (equals held (apply (sql op) j).id))
      (occupies r j && not (equals held j.id)) _ _ (changes_other op held r jobs q)
      (other_off op held r j q)

changes_load :
    (op : JobOp) (r : ℕ) (jobs : List Job)
    → is_claim op ≡ false
    → load r (execute (sql op) jobs) ≤ load r jobs
changes_load op r jobs q = omega (
  arith,
  other_load-none r jobs,
  other_load-none r (execute (sql op) jobs),
  changes_other op none r jobs q,
)

-- A change of the jobs that brings no runner a job, and what is held then.
pub jobs-Sound :
    (op : JobOp) (held : Option ℕ) (s : State)
    → is_claim op ≡ false
    → ((r : ℕ) → other_load held r (execute (sql op) s.db.jobs) ≤ other_load s.held r s.db.jobs)
    → Sound s
    → Sound (record (with_jobs s (execute (sql op) s.db.jobs)) { held = held })
jobs-Sound op held s q less e = record {
  valid = execute-IsValid op s.db.jobs e.valid;
  distinct = λ id. rw (with_id-execute (sql op) id s.db.jobs (λ j h. sql_id op j)) (e.distinct id);
  single = λ r. omega (arith, changes_load op r s.db.jobs q, e.single r);
  free = All-map s.db.runners (λ r f h. omega (arith, less r.id, f h)) e.free;
}
