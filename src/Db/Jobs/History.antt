-- ===== src/Db/Jobs/History.antt =====
-- What any sequence of statements on `pipeline_jobs` (backend/src/db/pipeline_jobs.rs) leaves of a row:
-- its identity, its outcome once it has one, and counters that only grow.
use overup.Prelude.{◌≤◌, ◌≡◌, List, [], ◌∷◌, arith, All}
use overup.Db.Rows.{completed, Job}
use overup.Db.Statements.{apply, execute}
use overup.Db.Jobs.Valid.{JobOp, claim, sql, IsValid, execute-IsValid}

-- The statements, one after the other.
abbrev pub run : List JobOp → List Job → List Job
run [] jobs = jobs
run (op ∷ ops) jobs = run ops (execute (sql op) jobs)

-- From an earlier to a later state of one row.
pub record Evolves (j k : Job) : Type 0 where
  pub same_id : k.id ≡ j.id
  pub same_pipeline : k.pipeline_id ≡ j.pipeline_id
  pub same_key : k.job_key ≡ j.job_key
  pub same_needs : k.needs ≡ j.needs
  pub attempts_grow : j.attempt ≤ k.attempt
  pub logs_grow : j.log_bytes ≤ k.log_bytes
  pub stays_completed : j.status ≡ completed → k.status ≡ completed
  pub same_conclusion : j.status ≡ completed → k.conclusion ≡ j.conclusion
  pub same_runner : j.status ≡ completed → k.runner_id ≡ j.runner_id
  pub same_exit : j.status ≡ completed → k.exit_code ≡ j.exit_code
  pub same_category : j.status ≡ completed → k.error_category ≡ j.error_category
  pub same_finish : j.status ≡ completed → k.finished_at ≡ j.finished_at

-- Row by row, in the order of the table.
abbrev pub Each : (Job → Job → Type 0) → List Job → List Job → Type 0
Each R [] [] = Unit
Each R [] (k ∷ ks) = ⊥
Each R (j ∷ js) [] = ⊥
Each R (j ∷ js) (k ∷ ks) = R j k × Each R js ks

apply-Evolves : (op : JobOp) (j : Job) → Evolves j (apply (sql op) j)
apply-Evolves (claim now job_id runner_id) j = ground arith
apply-Evolves _ j = ground arith

Evolves-refl : (j : Job) → Evolves j j
Evolves-refl j = ground arith

Evolves-trans : (i j k : Job) → Evolves i j → Evolves j k → Evolves i k
Evolves-trans i j k e f = ground arith

execute-Evolves : (op : JobOp) (jobs : List Job) → Each Evolves jobs (execute (sql op) jobs)
execute-Evolves op [] = tt
execute-Evolves op (j ∷ jobs) = (apply-Evolves op j, execute-Evolves op jobs)

Each-refl : (jobs : List Job) → Each Evolves jobs jobs
Each-refl [] = tt
Each-refl (j ∷ jobs) = (Evolves-refl j, Each-refl jobs)

Each-trans : (is js ks : List Job) → Each Evolves is js → Each Evolves js ks → Each Evolves is ks
Each-trans [] [] [] e f = tt
Each-trans [] [] (k ∷ ks) e f = f
Each-trans [] (j ∷ js) ks e f = absurd e
Each-trans (i ∷ is) [] ks e f = absurd e
Each-trans (i ∷ is) (j ∷ js) [] e f = f
Each-trans (i ∷ is) (j ∷ js) (k ∷ ks) (e, es) (f, fs) =
    (Evolves-trans i j k e f, Each-trans is js ks es fs)

-- Whatever statements run, in whatever order: no row is lost or gains another identity, attempts and
-- log bytes never shrink, and a completed job stays completed with the conclusion, runner, exit code,
-- category and finishing time that it had.
pub run-Evolves : (ops : List JobOp) (jobs : List Job) → Each Evolves jobs (run ops jobs)
run-Evolves [] jobs = Each-refl jobs
run-Evolves (op ∷ ops) jobs =
    Each-trans jobs (execute (sql op) jobs) _ (execute-Evolves op jobs)
      (run-Evolves ops (execute (sql op) jobs))

-- Whatever statements run on a table of valid rows, in whatever order, every row is valid afterwards: a
-- conclusion stands exactly on completed jobs, a queued job has no runner, a job in progress has one,
-- a completed job is at its last stage, and there are at most two attempts.
pub run-IsValid :
    (ops : List JobOp) (jobs : List Job) → All IsValid jobs → All IsValid (run ops jobs)
run-IsValid [] jobs v = v
run-IsValid (op ∷ ops) jobs v = run-IsValid ops (execute (sql op) jobs) (execute-IsValid op jobs v)
