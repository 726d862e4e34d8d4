-- ===== src/Db/Tables/Steps.antt =====
-- The control plane as a step relation over the tables: one step is one committed statement of backend/src/db,
-- or the transaction of a claim, in any interleaving of the tasks of backend/src/services/pipeline_run.rs,
-- scheduler.rs and the connections of runners.
use overup.Prelude.{ℕ, ◌≡◌, Bool, true, false, not, ◌&&◌, Option, none, some, List, ◌∷◌, Text}
use overup.Db.Rows.{Job, Runner, JobConclusion, ErrorCategory, equals, offline}
use overup.Db.Statements.{execute}
use overup.Db.Creation.{NewPipeline, job_row}
use overup.Plan.{PlannedJob}
use overup.Db.Jobs
use overup.Db.Jobs.Valid.{JobOp, claim, sql}
use overup.Db.Runners
use overup.Db.Runners.Lifecycle as Lifecycle
use overup.Db.Runners.Lifecycle.{RunnerOp}
use overup.Db.Tables.{Tables, claim_for_runner}
use overup.Db.Tables.Load.{occupies, count, with_id}

abbrev pub is_claim : JobOp → Bool
is_claim (claim now job runner) = true
is_claim _ = false

-- The statements on runners that make no runner claimable.
abbrev pub is_calm : RunnerOp → Bool
is_calm (Lifecycle.revoke now ws id) = true
is_calm (Lifecycle.update_labels id labels) = true
is_calm (Lifecycle.touch_last_seen now id) = true
is_calm (Lifecycle.mark_offline id) = true
is_calm Lifecycle.mark_all_offline = true
is_calm (Lifecycle.drain_start now ws id) = true
is_calm (Lifecycle.disable ws id) = true
is_calm _ = false

-- The tables, and the job whose dispatch has failed while the scheduler ends it: `assign_eligible` releases the
-- runner of such a job before it finishes the job. It is one task, which claims nothing in between.
pub record State : Type 0 where
  pub db : Tables
  pub held : Option ℕ

-- How many jobs the runner has in progress, other than the held one.
abbrev pub other_load : Option ℕ → ℕ → List Job → ℕ
other_load held runner_id jobs = count (λ j. occupies runner_id j && not (equals held j.id)) jobs

abbrev pub with_jobs : State → List Job → State
with_jobs s jobs = record s { db = record s.db { jobs = jobs } }

abbrev pub with_runners : State → List Runner → State
with_runners s runners = record s { db = record s.db { runners = runners } }

infix 40 ◌⟶◌
pub data ◌⟶◌ (s : State) : State → Type 0 where
  claims :
      (now job_id runner_id : ℕ)
      → s.held ≡ none
      → s ⟶ record s { db = (claim_for_runner now job_id runner_id s.db).0 }
  -- A job is created, in the queue and with an id of its own, or a runner, which is offline.
  creates :
      (new : NewPipeline) (id pipeline_id now : ℕ) (planned : PlannedJob)
      → with_id id s.db.jobs ≡ 0
      → s ⟶ with_jobs s (job_row new id pipeline_id now planned ∷ s.db.jobs)
  registers : (r : Runner) → r.status ≡ offline → s ⟶ with_runners s (r ∷ s.db.runners)
  -- Any other statement on jobs.
  changes : (op : JobOp) → is_claim op ≡ false → s ⟶ with_jobs s (execute (sql op) s.db.jobs)
  manages :
      (op : RunnerOp)
      → is_calm op ≡ true
      → s ⟶ with_runners s (execute (Lifecycle.sql op) s.db.runners)
  -- The dispatch of a job has failed, and the job is finished for that.
  gives_up : (job_id : ℕ) → s.held ≡ none → s ⟶ record s { held = some job_id }
  ends :
      (now job_id : ℕ) (conclusion : JobConclusion) (category : Option ErrorCategory)
      → s.held ≡ some job_id
      → s
        ⟶ record (with_jobs s
            (execute (Jobs.force_finish now job_id conclusion category) s.db.jobs)) { held = none }
  -- A runner is released, connects or is resumed while it has no job in progress but the held one.
  frees :
      (id : ℕ)
      → other_load s.held id s.db.jobs ≡ 0
      → s ⟶ with_runners s (execute (Runners.release id) s.db.runners)
  connects :
      (now id : ℕ) (version : Text)
      → other_load s.held id s.db.jobs ≡ 0
      → s ⟶ with_runners s (execute (Runners.mark_connected now id version) s.db.runners)
  resumes :
      (workspace_id id : ℕ) (connected : Bool)
      → other_load s.held id s.db.jobs ≡ 0
      → s ⟶ with_runners s (execute (Runners.resume workspace_id id connected) s.db.runners)

pub data Reaches (s : State) : State → Type 0 where
  here : Reaches s s
  next : {t u : State} → Reaches s t → t ⟶ u → Reaches s u
