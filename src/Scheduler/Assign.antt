-- ===== src/Scheduler/Assign.antt =====
-- `assign_eligible` (backend/src/services/scheduler.rs): which jobs get a runner, and which runner.
use overup.Prelude.{
  ℕ, ◌≡◌, ◌≢◌, refl, sym, subst, true, false, none, some, List, [], ◌∷◌, All, arith, find,
}
use overup.Db.Rows.{Status, in_progress, idle, Job, Runner, Pipeline, is_completed}
use overup.Db.Jobs
use overup.Db.Jobs.{member, is_eligible}
use overup.Db.Runners
use overup.Db.Runners.{find_idle_by_ids, is_available}
use overup.Db.Tables.{claim_for_runner}
use overup.World.{Effect, World}
use overup.Handlers.{on_job_assigned}
use overup.Scheduler.{
  labels_satisfy, DispatchOutcome, sent, fits, assign_to, assign_each, assign_eligible,
}

-- A job that may run, in a pipeline of one workspace, and a free runner of another one.
pub record Strangers (j : Job) (p : Pipeline) (r : Runner) : Type 0 where
  pub waits : j.status ≡ Status.queued
  pub nowhere : j.runner_id ≡ none
  pub no_needs : j.needs ≡ []
  pub part : j.pipeline_id ≡ p.id
  pub open_pipeline : is_completed p.status ≡ false
  pub ready : r.status ≡ idle
  pub not_draining : r.draining_at ≡ none
  pub not_revoked : r.revoked_at ≡ none
  pub suited : labels_satisfy j.runs_on r.labels ≡ true
  pub foreign : r.workspace_id ≢ p.workspace_id

abbrev pub only : Job → Pipeline → Runner → World
only j p r = record {
  tables = record { jobs = j ∷ []; runners = r ∷ []; pipelines = p ∷ [] };
  effects = [];
}

abbrev Taken : Job → Runner → World → Type 0
Taken j r w =
    All (λ (k : Job). (k.id ≡ j.id) × (k.status ≡ in_progress) × (k.runner_id ≡ some r.id))
      w.tables.jobs

module _ (now : ℕ) (dispatch : List Effect → Job → ℕ → DispatchOutcome) (j : Job) (p : Pipeline)
    (r : Runner) (s : Strangers j p r)
    (d : (es : List Effect) (k : Job) (id : ℕ) → dispatch es k id ≡ sent) where
  claims_stranger : Taken j r (assign_to now dispatch j [] (only j p r) (some r)).1
  unfolding claim_for_runner on_job_assigned
  claims_stranger =
      let takes : (Jobs.claim_job now j.id r.id).guard j ≡ true = ground arith in
      let given : (Runners.claim_runner r.id).guard r ≡ true = ground arith in
      rw (takes, given) (rw d (rw takes ((refl, refl, refl), tt)))

  fits_stranger : find (fits now dispatch j []) (r ∷ []) ≡ some r
  fits_stranger = rw s.suited refl

  -- A queued job without needs, in a live pipeline of one workspace, and a connected idle runner of
  -- another workspace, neither draining nor revoked, that offers its labels: if the payload is
  -- delivered, `assign_eligible` puts the job on that runner.
  pub assign_crosses_workspaces : Taken j r (assign_eligible now dispatch (r.id ∷ []) (only j p r))
  unfolding assign_eligible assign_each
  assign_crosses_workspaces =
      let avail : is_available (r.id ∷ []) r ≡ true = ground arith in
      let eligible : is_eligible (p ∷ []) (j ∷ []) j ≡ true = ground arith in
      rw (avail, eligible)
        (subst (λ found. Taken j r (assign_to now dispatch j [] (only j p r) found).1)
          (sym fits_stranger) claims_stranger)
