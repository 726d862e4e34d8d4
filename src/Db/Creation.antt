-- ===== src/Db/Creation.antt =====
-- backend/src/db/pipelines.rs, `create`: a new pipeline and its jobs, in one transaction. What other
-- transactions commit between its first query and its insertions is a second store; the counter of the
-- repository is locked from its statement on. The rows of a table are in no order.
pub mod Once
pub mod Retried
mod Tests
use overup.Prelude.{
  ℕ, suc, ◌+◌, Bool, true, false, ◌&&◌, ◌||◌, Option, none, some, List, [], ◌∷◌, ◌++◌,
  if◌then◌else◌, ◌==◌, any, find, length, map, Text, text_eq, contains,
}
use overup.Db.Rows.{Status, Stage, queued, Job, Pipeline}
use overup.Plan.{PlannedJob}

-- The columns of `NewPipeline` that are columns of `Pipeline` and `Job`.
pub record NewPipeline : Type 0 where
  pub workspace_id : ℕ
  pub repository_id : ℕ
  pub workflow_id : ℕ
  pub webhook_delivery_id : Option Text
  pub timeout_seconds : ℕ
  pub job_timeout_seconds : ℕ

-- `counters` is the table `pipeline_counters`; an entry of `events` is a pipeline with the number of its
-- jobs, one of `audit` a pipeline with its number.
pub record Store : Type 0 where
  pub pipelines : List Pipeline
  pub jobs : List Job
  pub counters : ℕ → Option ℕ
  pub events : List (ℕ × ℕ)
  pub audit : List (ℕ × ℕ)

pub data Created : Type 0 where
  created : Pipeline → List Job → Created
  existing : Pipeline → Created
  rejected : Created

abbrev pub is_delivery : Text → Option Text → Bool
is_delivery delivery none = false
is_delivery delivery (some d) = text_eq d delivery

abbrev pub is_workflow : ℕ → Option ℕ → Bool
is_workflow workflow none = false
is_workflow workflow (some w) = w == workflow

abbrev pub is_of : Text → ℕ → Pipeline → Bool
is_of delivery workflow p =
    is_delivery delivery p.webhook_delivery_id && is_workflow workflow p.workflow_id

abbrev pub find_by_delivery : Text → ℕ → List Pipeline → Option Pipeline
find_by_delivery delivery workflow pipelines = find (is_of delivery workflow) pipelines

-- Only a delivery is looked for; the unique index is partial in the same way.
unfoldable pub find_existing : NewPipeline → Store → Option Pipeline
find_existing new s = elim new.webhook_delivery_id [
  | none ↦ none
  | some delivery ↦ find_by_delivery delivery new.workflow_id s.pipelines
]

-- `INSERT … VALUES (repository, 2) ON CONFLICT … SET next_number = next_number + 1`
abbrev pub next_of : Option ℕ → ℕ
next_of none = 2
next_of (some n) = n + 1

-- `RETURNING next_number - 1`
abbrev pub number_of : Option ℕ → ℕ
number_of none = 1
number_of (some n) = n

abbrev pub bump : ℕ → (ℕ → Option ℕ) → ℕ → Option ℕ
bump repository counters r =
    if r == repository then some (next_of (counters repository)) else counters r

abbrev pub new_row : NewPipeline → ℕ → ℕ → ℕ → Pipeline
new_row new id number now = record {
  id = id;
  workspace_id = new.workspace_id;
  repository_id = new.repository_id;
  workflow_id = some new.workflow_id;
  number = number;
  webhook_delivery_id = new.webhook_delivery_id;
  status = queued;
  conclusion = none;
  timeout_seconds = new.timeout_seconds;
  created_at = now;
  started_at = none;
  finished_at = none;
}

abbrev pub job_row : NewPipeline → ℕ → ℕ → ℕ → PlannedJob → Job
job_row new id pipeline_id now planned = record {
  id = id;
  pipeline_id = pipeline_id;
  job_key = planned.key;
  runs_on = planned.runs_on;
  needs = planned.needs;
  status = queued;
  conclusion = none;
  stage = Stage.queued;
  runner_id = none;
  attempt = 1;
  exit_code = none;
  error_category = none;
  timeout_seconds = new.job_timeout_seconds;
  log_bytes = 0;
  position = planned.position;
  metrics = none;
  logs_archived_at = none;
  logs_archive_backend = none;
  queued_at = now;
  assigned_at = none;
  started_at = none;
  finished_at = none;
}

-- The generated ids are an argument, a function of the place in the list.
unfoldable pub job_rows : NewPipeline → (ℕ → ℕ) → ℕ → ℕ → List PlannedJob → List Job
job_rows new ids pipeline_id now [] = []
job_rows new ids pipeline_id now (planned ∷ rest) =
    job_row new (ids 0) pipeline_id now planned
    ∷ job_rows new (λ i. ids (suc i)) pipeline_id now rest

-- Two jobs of one pipeline with one key: `UNIQUE (pipeline_id, job_key)`.
unfoldable pub has_duplicates : List Text → Bool
has_duplicates [] = false
has_duplicates (key ∷ keys) = contains keys key || has_duplicates keys

-- The row of the pipeline, its jobs, the event and the audit entry.
unfoldable pub commit : NewPipeline → List PlannedJob → ℕ → (ℕ → ℕ) → ℕ → Store → Created × Store
commit new planned id ids now s =
    let number = number_of (s.counters new.repository_id) in
    let row = new_row new id number now in
    let rows = job_rows new ids id now planned in
    (
      created row rows,
      record {
        pipelines = row ∷ s.pipelines;
        jobs = rows ++ s.jobs;
        counters = bump new.repository_id s.counters;
        events = (id, length planned) ∷ s.events;
        audit = (id, number) ∷ s.audit;
      },
    )

-- A violated constraint rolls back, the counter included; one of the index answers with the winner's row.
unfoldable pub insert : NewPipeline → List PlannedJob → ℕ → (ℕ → ℕ) → ℕ → Store → Created × Store
insert new planned id ids now s = elim (find_existing new s) [
  | some winner ↦ (existing winner, s)
  | none ↦
      if has_duplicates (map (λ p. p.key) planned)
      then (rejected, s)
      else commit new planned id ids now s
]

-- The first query sees `before`, the insertions `s`.
unfoldable pub create :
    NewPipeline → List PlannedJob → ℕ → (ℕ → ℕ) → ℕ → Store → Store → Created × Store
create new planned id ids now before s = elim (find_existing new before) [
  | some found ↦ (existing found, s)
  | none ↦ insert new planned id ids now s
]
