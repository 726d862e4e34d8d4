-- ===== src/Plan.antt =====
-- backend/src/services/pipeline_plan.rs: the plans of the jobs of a workflow. The JSON object that is stored
-- with a job is the record of its fields.
pub mod Toolchains
pub mod Images
pub mod Steps
pub mod Build
pub mod Workdirs
pub mod Dispatched
pub mod Limits
pub mod Permitted
pub mod Confined
pub mod Empty
mod Tests
use overup.Prelude.{
  Bool, true, false, not, ◌&&◌, ℕ, ◌*◌, Option, none, some, List, [], ◌∷◌, ◌++◌, if◌then◌else◌,
  filter, take, leb, any, Text, codes, contains, text_eq, byte_len,
}
use overup.LogHub.{split_floor}
use overup.Protocol.{normalize_relative_path, max_relative_path_bytes}
use overup.Workflow.Yaml.{Value, Entries, entries, Yaml}
use overup.Workflow.Words.{is_control, includes}
use overup.Workflow.Refs.{text_leb}

pub record PlannedStep : Type 0 where
  pub name : Text
  pub run : Text
  pub shell : Text
  pub working_directory : Option Text

abbrev pub Env : Type 0
Env = List (Text × Text)

pub record JobPlan : Type 0 where
  pub image : Text
  pub env : Env
  pub steps : List PlannedStep
  pub environment : Option Text
  pub notices : List Text

pub record PlannedJob : Type 0 where
  pub key : Text
  pub name : Option Text
  pub runs_on : List Text
  pub needs : List Text
  pub plan : JobPlan
  pub position : ℕ

pub data PlanError : Type 0 where
  invalid no_runnable_jobs : PlanError

-- `Result<Vec<PlannedJob>, PlanError>`
pub data Plans : Type 0 where
  plans : List PlannedJob → Plans
  refused : PlanError → Plans

abbrev pub max_step_run_bytes : ℕ
max_step_run_bytes = 32 * 1024

abbrev pub max_env_value_bytes : ℕ
max_env_value_bytes = 8 * 1024

-- The cut goes down to the next boundary of a character.
unfoldable pub truncate_utf8 : ℕ → Text → Text
truncate_utf8 max_bytes value =
    if leb (byte_len value) max_bytes then value else (split_floor max_bytes value).0

-- `BTreeMap::insert`
unfoldable pub insert_env : Text → Text → Env → Env
insert_env key value [] = (key, value) ∷ []
insert_env key value ((k, v) ∷ env) =
    let later = insert_env key value env in
    if text_eq key k
    then (k, value) ∷ env
    else if text_leb key k
    then (key, value) ∷ (k, v) ∷ env
    else (k, v) ∷ later

-- `env.extend(..)`
unfoldable pub extend_env : Env → Env → Env
extend_env env [] = env
extend_env env ((key, value) ∷ more) = extend_env (insert_env key value env) more

abbrev pub bool_text : Bool → Text
bool_text true = codes "true"
bool_text false = codes "false"

-- Scalars as they are printed.
unfoldable pub env_value : Value → Option Text
env_value (Value.string s) = some s
env_value (Value.bool b) = some (bool_text b)
env_value (Value.number n) = some n
env_value _ = none

abbrev pub sanitize_for_notice : Text → Text
sanitize_for_notice value = take 100 (filter (λ c. not (is_control c)) value)

-- `Result<String, String>`
pub data PlannedPath : Type 0 where
  carried : Text → PlannedPath
  bad : Text → PlannedPath

abbrev pub carried_or_bad : Text → Option Text → PlannedPath
carried_or_bad raw none = bad (sanitize_for_notice raw)
carried_or_bad raw (some path) = carried path

unfoldable pub plan_working_directory : Text → PlannedPath
plan_working_directory raw =
    if includes (codes "${{") raw
    then (if leb (byte_len raw) max_relative_path_bytes && not (any is_control raw)
        then carried raw
        else bad (sanitize_for_notice raw))
    else carried_or_bad raw (normalize_relative_path raw)

abbrev pub workdir_notice : Text → Text
workdir_notice fragment =
    codes "working-directory `"
    ++ fragment
    ++ codes
        "` is not a supported workspace-relative path; the affected steps run at the workspace root"

unfoldable pub push_workdir_notice : List Text → Text → List Text
push_workdir_notice notices fragment =
    if contains notices (workdir_notice fragment)
    then notices
    else notices ++ workdir_notice fragment ∷ []

-- The path to store, and the notices with what is wrong with it.
unfoldable pub settle : PlannedPath → List Text → Option Text × List Text
settle (carried path) notices = (some path, notices)
settle (bad fragment) notices = (none, push_workdir_notice notices fragment)

module _ (yaml : Yaml) where
  open yaml use {as_str, as_mapping, value_get}

  abbrev pub get_text : Value → Text → Option Text
  get_text node key = elim (value_get node key) [ none ↦ none | some v ↦ as_str v ]

  -- Keys that are not strings, and values that are not scalars, are passed over.
  unfoldable pub insert_entry : Option Text → Option Text → Env → Env
  insert_entry none value env = env
  insert_entry (some key) none env = env
  insert_entry (some key) (some value) env =
      insert_env key (truncate_utf8 max_env_value_bytes value) env

  unfoldable pub env_entries : List (Value × Value) → Env → Env
  env_entries [] env = env
  env_entries ((key, value) ∷ rest) env =
      env_entries rest (insert_entry (as_str key) (env_value value) env)

  unfoldable pub env_map : Option Value → Env
  env_map none = []
  env_map (some node) = elim (as_mapping node) [
    | none ↦ []
    | some map ↦ env_entries (entries map) []
  ]

  unfoldable pub defaults_working_directory : Value → Option Text
  defaults_working_directory node = elim (value_get node (codes "defaults")) [
    | none ↦ none
    | some defaults ↦ elim (value_get defaults (codes "run")) [
      | none ↦ none
      | some run ↦ get_text run (codes "working-directory")
    ]
  ]
