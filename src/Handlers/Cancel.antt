-- ===== src/Handlers/Cancel.antt =====
-- `cancel_pipeline` (backend/src/services/pipeline_run.rs): no job of the pipeline is left that neither is
-- completed nor has a runner that got the message.
use overup.Prelude.{ℕ, ◌≡◌, Bool, true, false, List, [], ◌∷◌, All, ◌⊎◌, ◌==◌, ◌&&◌, ◌||◌}
use overup.Db.Rows.{in_progress, completed, Job}
use overup.Db.Jobs
use overup.Db.Jobs.{member}
use overup.World.{Effect, job_cancel, user, World}
use overup.Handlers.Stable.{Stable}

module _ (now : ℕ) (delivers : List Effect → ℕ → Bool) where
  -- This effect is a user's cancellation of the job, and the runner's channel took it.
  abbrev pub reaches : ℕ → Effect → List Effect → Bool
  reaches i (job_cancel r k user) es = k == i && delivers es r
  reaches i _ es = false

  abbrev pub delivered : ℕ → List Effect → Bool
  delivered i [] = false
  delivered i (e ∷ es) = reaches i e es || delivered i es

  -- A job of the pipeline is completed, or it is in progress and its runner has the message, or it is
  -- among those that are still to be told.
  abbrev Handled : ℕ → List ℕ → List Effect → Job → Type 0
  Handled id ids es j =
      j.pipeline_id ≡ id
      → (j.status ≡ completed)
        ⊎ ((j.status ≡ in_progress) × ((member j.id ids ≡ true) ⊎ (delivered j.id es ≡ true)))

  abbrev AllHandled : ℕ → List ℕ → World → Type 0
  AllHandled id ids w = All (Handled id ids w.effects) w.tables.jobs

  -- A job of the pipeline is completed, or its runner has the message.
  abbrev pub Cancelled : ℕ → List Effect → Job → Type 0
  Cancelled id es j =
      j.pipeline_id ≡ id
      → (j.status ≡ completed) ⊎ ((j.status ≡ in_progress) × (delivered j.id es ≡ true))
