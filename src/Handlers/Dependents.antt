-- ===== src/Handlers/Dependents.antt =====
-- `skip_dependents` (backend/src/services/pipeline_run.rs) leaves no job that waits for one that can never
-- succeed.
use overup.Prelude.{ℕ, ◌≡◌, true, List, In, ◌⊎◌, Text}
use overup.Db.Rows.{Job, is_queued}
use overup.Db.Jobs
use overup.Db.Jobs.{member}
use overup.Run.{failed_keys}
use overup.World.{World}

-- The ids of the rows are primary keys.
abbrev pub UniqueIds : List Job → Type 0
UniqueIds jobs = (j j' : Job) → In j jobs → In j' jobs → j.id ≡ j'.id → j ≡ j'

abbrev SkippedKey : List ℕ → List Job → Text → Type 0
SkippedKey ids jobs k =
    (d : Job) × In d jobs × (k ≡ d.job_key) × (member d.id ids ≡ true) × (is_queued d.status ≡ true)

abbrev FailedOrSkipped : List ℕ → List Job → Text → Type 0
FailedOrSkipped ids jobs k = In k (failed_keys jobs) ⊎ SkippedKey ids jobs k

-- No queued job of the list needs a key that has failed.
abbrev pub Hopeful : List Job → Type 0
Hopeful jobs =
    (j : Job)
    → In j jobs
    → is_queued j.status ≡ true
    → (k : Text) → In k j.needs
    → ¬ In k (failed_keys jobs)
