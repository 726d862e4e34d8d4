-- ===== src/Lib.antt =====
-- overup is a continuous-integration server: workflows of a repository run as pipelines of jobs
-- on connected runners. This library models the decisions of its back end (backend/src).
--
-- Parts, and where each is modelled:
--
-- * Trigger evaluation (backend/src/services/trigger_eval.rs). Glob holds the filter globs:
--   `tokenize` and the position-set matcher `glob_match`, with the declarative meaning of tokens
--   in Glob/Meaning and the agreement of the two in Glob/Positions, Glob/Steps and
--   Glob/Matching. Trigger holds `match_ordered`, the reading of stored filters and `evaluate`;
--   Trigger/Ordered, Trigger/Filters and Trigger/Decide say what these decide. A stored
--   `serde_json::Value` is the parameter `Json`.
-- * Workflow files (backend/src/services/workflow_parse.rs). Workflow has diagnostics, the status
--   and the parsed job; functions that push diagnostics are in a monad that logs them. Workflow/Yaml
--   has the documents, with the constructors that the source matches on; the accessors of
--   `serde_yaml_ng` and the printing of its numbers are the parameter `Yaml`, `from_str` a
--   parameter of `parse_and_validate`. Workflow/Parse has `parse_and_validate`, and the other files
--   its parts: Budget `check_budget`, Triggers `extract_triggers` and `extract_trigger_filters`,
--   Inputs `extract_dispatch_inputs`, Jobs `extract_jobs`, Needs `validate_needs`, Refs the scans
--   for secrets, variables and environments, Files `detect_file_refs` with Scripts `script_ref`,
--   Substitute `substitute_context_refs`, Fields `filter_patterns`, the rules for names and
--   `string_or_list`, Documents `value_to_json`. Words has what these use of the standard
--   library's strings. The parser stores the filters that the evaluation of triggers reads, and
--   checks paths with the function of the protocol. Workflow/Parse/Accepted, Needs/Valid,
--   Budget/Walk, Triggers/Stored, Substitute/Blocks and Files/Detected are about whole functions,
--   the other child modules about their loops. Budget/Size counts the nodes and levels of a
--   document, those below a tag included, which `check_budget` does not enter.
-- * The planner (backend/src/services/pipeline_plan.rs, toolchain_images.rs). Plan has the plans and
--   `truncate_utf8`, `env_map` and `plan_working_directory`; Plan/Toolchains the catalog of images,
--   Plan/Images the choice of one, Plan/Steps the steps, Plan/Build `build_plans`, which calls the
--   parser and reads the document again. Plan/Workdirs has `resolve_step_workdir` of
--   backend/src/services/scheduler.rs, which resolves what was planned at dispatch. Plan/Limits,
--   Plan/Permitted and Plan/Confined are about what a plan holds, Plan/Empty about refusals,
--   Plan/Dispatched about a directory from its plan to its dispatch. The JSON object of a plan is
--   the record of its fields.
-- * Webhook statistics (backend/src/services/webhook_stats.rs). WebhookStats has the two rings of
--   hours with `record_at` and `snapshot_at`; WebhookStats/Window is about one bucket,
--   WebhookStats/Rejections about the whole ring against a list of rejections.
-- * The tables (backend/src/db/pipeline_jobs.rs, runners.rs, pipelines.rs). Db/Rows has the
--   rows, Db/Statements the shape of an `UPDATE … WHERE … RETURNING`: a guard and a change.
--   Db/Jobs, Db/Runners and Db/Pipelines have one definition for each statement, under the name
--   of its Rust function. Db/Creation has `create` of pipelines.rs, with a second store for what
--   other transactions commit meanwhile; Db/Creation/Once and Db/Creation/Retried are about it.
--   Db/Jobs/Valid and Db/Jobs/History are about any sequence of statements
--   on jobs, Db/Runners/Lifecycle about runners. Db/Tables puts the tables together:
--   `claim_for_runner`, and the sequences of statements that release a runner. Db/Tables/Steps is
--   the step relation of the control plane: a step is one committed statement, or the transaction
--   of a claim, and its state also has the job whose failed dispatch `assign_eligible` is ending.
--   Its steps demand that a runner is released, connects or is resumed while it has no other job
--   in progress: Db/Tables/Composed shows that the sequences of the source release runners so,
--   Db/Tables/Races that connections and resumptions need not, and what comes of it.
--   Db/Tables/Exclusive and Db/Tables/Claim are about the states in which no dispatch is being
--   ended, Db/Tables/Sound and Db/Tables/Reachable about all that the steps reach.
-- * The pipeline state machine (backend/src/services/pipeline_run.rs). Run has
--   `compute_conclusion` and the fixpoint of `skip_dependents`; Run/Conclusion, Run/Doomed and
--   Run/Skip are about them. World has what the handlers act on, the tables and the effects that
--   they emit, and Handlers the handlers themselves (`on_job_finished`, `skip_dependents`,
--   `maybe_finalize`, `cancel_pipeline`, `cancel_job`, `timeout_job`, `timeout_pipeline`,
--   `orphan_runner_jobs` and the notifications), with what they preserve in Handlers/Stable and
--   what they leave behind in the other files of that folder. Whether the channel of a runner
--   takes a message is a parameter. `create_pipeline` and `on_job_step` are left out.
-- * The scheduler (backend/src/services/scheduler.rs). Scheduler has one pass: `revert_unacked`,
--   `sweep_stale_runners`, `sweep_timeouts` and `assign_eligible`, over the world of the
--   handlers. The outcome of `dispatch`, which builds, signs and sends a payload, is a
--   parameter, as is what the hub says about connections. Scheduler/Labels is about the matching
--   of labels, Scheduler/Placed and Scheduler/Given about which runner gets a job,
--   Scheduler/Assign about workspaces.
-- * Log masking (backend/src/services/log_hub.rs). LogHub has `register_masks`, `mask_chunk`,
--   `apply_masks`, the flush of `finish_job` and the delayed removal, over the entry of one job.
--   LogHub/Replace is about one text, LogHub/Held about what is held back, LogHub/Masked and
--   LogHub/Log about the whole log of a job, LogHub/Attempts about a job that is dispatched
--   twice. `replace` of the standard library is modelled for values that are not empty, which
--   registered ones are. The handlers record the flush of a job's log as an effect.
-- * The wire protocol (protocol/src/lib.rs). Protocol has `normalize_relative_path`, which the
--   server and the runner share; Protocol/Paths is about the paths that it accepts.
-- * Web-socket tickets (backend/src/services/ws_ticket.rs). Tickets has the store with `mint` and
--   `consume`; Tickets/Store is about its map, Tickets/Uses, Tickets/Capacity and
--   Tickets/Lifetime about sequences of calls. SHA-256 is a parameter, and the random value of a
--   ticket an argument.
--
-- Texts are lists of Unicode scalar values, with byte lengths counted as UTF-8 does. Ids, and
-- times in seconds, are numbers; the statements of one run of a handler carry one time. Each
-- statement is atomic, as in the database; interleavings are sequences of statements. Loops on
-- fuel: `tokens_from` has one unit for each character and `close` one for each job and one more;
-- the walk over a document has two more than the node budget allows, a search through the needs
-- two more than there are jobs without a color and needs of theirs, and a substitution one more
-- than the characters. All of these are shown to be enough. The scans for references have one
-- more than the characters of what they scan, of which each round takes some.
--
-- Not modelled: failures of the database connection, and violated constraints other than those
-- that Db/Creation answers, the HTTP and web-socket layers, the GitHub client, the runner's
-- container driver, encryption, search, notifications and the front end; these are I/O or
-- projections of the tables.
pub mod Prelude
pub mod Glob
pub mod Trigger
pub mod Db
pub mod Run
pub mod World
pub mod Handlers
pub mod Scheduler
pub mod LogHub
pub mod Protocol
pub mod Tickets
pub mod Workflow
pub mod WebhookStats
pub mod Plan
