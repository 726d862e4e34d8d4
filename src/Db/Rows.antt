-- ===== src/Db/Rows.antt =====
-- The rows of backend/src/models/pipeline.rs and backend/src/models/runner.rs. Text columns with a
-- CHECK constraint in backend/migrations are enumerations; ids and timestamps are numbers; an
-- `exit_code` is the 32-bit pattern of its i32; `metrics` is the text of its JSON.
use overup.Prelude.{ℕ, Bool, true, false, Option, none, some, List, Text, ◌==◌}

pub data Status : Type 0 where
  queued in_progress completed : Status

pub data JobConclusion : Type 0 where
  success failure cancelled timed_out skipped : JobConclusion

-- The conclusion of a whole pipeline.
pub data Verdict : Type 0 where
  success failure cancelled timed_out partial : Verdict

-- The stages of protocol/src/lib.rs, in their order.
pub data Stage : Type 0 where
  queued preparing waiting_for_runner assigned pulling_image starting_container : Stage
  running uploading_artifacts cleaning_workspace done : Stage

pub data RunnerStatus : Type 0 where
  offline idle busy disabled : RunnerStatus

-- Static categories of an error, with the text that a runner may report.
pub data ErrorCategory : Type 0 where
  runner_lost timeout checkout_unavailable secrets_unavailable workdir_invalid : ErrorCategory
  reported : Text → ErrorCategory

-- `PipelineJob`; `name` and `plan` are written once, at creation, and no statement below reads them.
pub record Job : Type 0 where
  pub id : ℕ
  pub pipeline_id : ℕ
  pub job_key : Text
  pub runs_on : List Text
  pub needs : List Text
  pub status : Status
  pub conclusion : Option JobConclusion
  pub stage : Stage
  pub runner_id : Option ℕ
  pub attempt : ℕ
  pub exit_code : Option ℕ
  pub error_category : Option ErrorCategory
  pub timeout_seconds : ℕ
  pub log_bytes : ℕ
  pub position : ℕ
  pub metrics : Option Text
  pub logs_archived_at : Option ℕ
  pub logs_archive_backend : Option Text
  pub queued_at : ℕ
  pub assigned_at : Option ℕ
  pub started_at : Option ℕ
  pub finished_at : Option ℕ

-- The columns of `Runner` that the statements of scheduling read or write.
pub record Runner : Type 0 where
  pub id : ℕ
  pub workspace_id : ℕ
  pub name : Text
  pub labels : List Text
  pub status : RunnerStatus
  pub version : Option Text
  pub last_seen_at : Option ℕ
  pub revoked_at : Option ℕ
  pub draining_at : Option ℕ

-- The columns of `Pipeline` that the state machine reads or writes.
pub record Pipeline : Type 0 where
  pub id : ℕ
  pub workspace_id : ℕ
  pub repository_id : ℕ
  pub workflow_id : Option ℕ
  pub number : ℕ
  pub webhook_delivery_id : Option Text
  pub status : Status
  pub conclusion : Option Verdict
  pub timeout_seconds : ℕ
  pub created_at : ℕ
  pub started_at : Option ℕ
  pub finished_at : Option ℕ

-- `column = 'value'` on the enumerations.
abbrev pub is_queued : Status → Bool
is_queued queued = true
is_queued _ = false

abbrev pub is_in_progress : Status → Bool
is_in_progress in_progress = true
is_in_progress _ = false

abbrev pub is_completed : Status → Bool
is_completed completed = true
is_completed _ = false

abbrev pub is_assigned : Stage → Bool
is_assigned assigned = true
is_assigned _ = false

abbrev pub is_idle : RunnerStatus → Bool
is_idle idle = true
is_idle _ = false

abbrev pub is_busy : RunnerStatus → Bool
is_busy busy = true
is_busy _ = false

abbrev pub is_disabled : RunnerStatus → Bool
is_disabled disabled = true
is_disabled _ = false

abbrev pub is_offline : RunnerStatus → Bool
is_offline offline = true
is_offline _ = false

-- `column = $1`, `IS NULL` and `COALESCE` on a nullable column: NULL equals nothing.
abbrev pub equals : Option ℕ → ℕ → Bool
equals none n = false
equals (some m) n = m == n

abbrev pub is_null {ℓ} : {A : Type ℓ} → Option A → Bool
is_null none = true
is_null (some a) = false

abbrev pub coalesce {ℓ} : {A : Type ℓ} → Option A → A → Option A
coalesce none a = some a
coalesce (some b) a = some b
