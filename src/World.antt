-- ===== src/World.antt =====
-- What the handlers of backend/src/services/pipeline_run.rs act on: the tables, and the effects that they
-- emit, which are entries of the event ledger, broadcasts, messages to runners, audit entries, log
-- flushes and wake-ups of the scheduler.
use overup.Prelude.{ℕ, Option, none, some, List, [], ◌∷◌, Text, codes}
use overup.Db.Rows.{
  JobConclusion, success, failure, cancelled, timed_out, skipped, Verdict, Stage, Job, Pipeline,
  ErrorCategory,
}
use overup.Db.Statements.{Update, execute}
use overup.Db.Tables.{Tables}

pub data CancelReason : Type 0 where
  user time_limit : CancelReason

-- The JSON of a ledger entry.
pub data Payload : Type 0 where
  nothing : Payload
  attempt : ℕ → Payload
  result : Option ℕ → Option ErrorCategory → ℕ → Payload
  reason : Text → Payload
  given : Text → Payload

pub record Event : Type 0 where
  pub pipeline_id : ℕ
  pub job_id : Option ℕ
  pub event_type : Text
  pub from_state : Option Text
  pub to_state : Option Text
  pub runner_id : Option ℕ
  pub actor : Option ℕ
  pub payload : Payload

pub data Effect : Type 0 where
  ledger : Event → Effect
  job_update : Job → Effect
  pipeline_update : Pipeline → Effect
  -- A message to the channel of a runner, delivered or not.
  job_cancel : (runner_id job_id : ℕ) → CancelReason → Effect
  flush_log : (pipeline_id job_id : ℕ) → Effect
  archive_log : Job → Effect
  check_started : ℕ → Effect
  check_completed : ℕ → Effect
  audit : Text → ℕ → Option ℕ → Effect
  poke : Effect
  clear_masks : (job_id : ℕ) → Effect
  unregister : (runner_id : ℕ) → Effect
  runner_update : (runner_id : ℕ) → Effect

-- The tables, and the effects so far, the latest first.
pub record World : Type 0 where
  pub tables : Tables
  pub effects : List Effect

-- `AppResult<()>`
pub data Reply : Type 0 where
  ok : Reply
  conflict : Text → Reply
  not_found : Reply

abbrev pub emit : Effect → World → World
emit e w = record w { effects = e ∷ w.effects }

abbrev pub on_jobs : Update Job → World → World
on_jobs u w = record w { tables = record w.tables { jobs = execute u w.tables.jobs } }

abbrev pub on_pipelines : Update Pipeline → World → World
on_pipelines u w = record w {
  tables = record w.tables { pipelines = execute u w.tables.pipelines };
}

-- `for x in &list { … }`
abbrev pub for_each {ℓ} : {A : Type ℓ} → (A → World → World) → List A → World → World
for_each f [] w = w
for_each f (x ∷ xs) w = for_each f xs (f x w)

abbrev pub conclusion_text : JobConclusion → Text
conclusion_text success = codes "success"
conclusion_text failure = codes "failure"
conclusion_text cancelled = codes "cancelled"
conclusion_text timed_out = codes "timed_out"
conclusion_text skipped = codes "skipped"

abbrev pub verdict_text : Verdict → Text
verdict_text Verdict.success = codes "success"
verdict_text Verdict.failure = codes "failure"
verdict_text Verdict.cancelled = codes "cancelled"
verdict_text Verdict.timed_out = codes "timed_out"
verdict_text Verdict.partial = codes "partial"

abbrev pub stage_text : Stage → Text
stage_text Stage.queued = codes "queued"
stage_text Stage.preparing = codes "preparing"
stage_text Stage.waiting_for_runner = codes "waiting_for_runner"
stage_text Stage.assigned = codes "assigned"
stage_text Stage.pulling_image = codes "pulling_image"
stage_text Stage.starting_container = codes "starting_container"
stage_text Stage.running = codes "running"
stage_text Stage.uploading_artifacts = codes "uploading_artifacts"
stage_text Stage.cleaning_workspace = codes "cleaning_workspace"
stage_text Stage.done = codes "done"

abbrev pub publish_job : Job → World → World
publish_job j = emit (job_update j)

abbrev pub publish_pipeline : Pipeline → World → World
publish_pipeline p = emit (pipeline_update p)

-- The ledger entry, whose broadcast goes with it.
abbrev pub record_event : Event → World → World
record_event event = emit (ledger event)

-- An entry about a job, with its runner.
abbrev pub job_event : Job → Text → Option Text → Option Text → Payload → Event
job_event j kind from to payload = record {
  pipeline_id = j.pipeline_id;
  job_id = some j.id;
  event_type = kind;
  from_state = from;
  to_state = to;
  runner_id = j.runner_id;
  actor = none;
  payload = payload;
}

-- An entry about a pipeline.
abbrev pub pipeline_event : ℕ → Text → Option Text → Option Text → Option ℕ → Event
pipeline_event id kind from to actor = record {
  pipeline_id = id;
  job_id = none;
  event_type = kind;
  from_state = from;
  to_state = to;
  runner_id = none;
  actor = actor;
  payload = nothing;
}

-- The entry about a queued job that ends.
abbrev pub closed_event : ℕ → Job → Text → Option ℕ → Payload → Event
closed_event pipeline_id j to actor payload = record {
  pipeline_id = pipeline_id;
  job_id = some j.id;
  event_type = codes "job.completed";
  from_state = some (codes "queued");
  to_state = some to;
  runner_id = none;
  actor = actor;
  payload = payload;
}
