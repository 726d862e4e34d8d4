-- ===== src/Workflow/Triggers.antt =====
-- backend/src/services/workflow_parse.rs: the `on` section. `extract_triggers` lists the events, and
-- `extract_trigger_filters` stores their filters.
pub mod Stored
mod Tests
use overup.Prelude.{
  Bool, true, false, not, ◌&&◌, Option, none, some, List, [], ◌∷◌, ◌++◌, if◌then◌else◌, filter,
  take, is_empty, any, Text, codes, contains, text_eq,
}
use overup.Workflow.{Diagnostic, error, warning, Logged, ◌>>=◌, ◌>>◌, pure, say, say_if}
use overup.Workflow.Yaml.{
  Value, Entries, bool, string, sequence, mapping, Yaml, Json, Object, array, object,
}
use overup.Workflow.Fields.{
  is_valid_identifier, key_names, get, strs, string_or_list, filter_patterns,
}
use overup.Workflow.Documents.{strings_json, put_field}

abbrev pub is_some : {A : Type 0} → Option A → Bool
is_some none = false
is_some (some a) = true

abbrev pub pr_activity_types : List Text
pr_activity_types =
    codes "opened"
    ∷ codes "synchronize"
    ∷ codes "reopened"
    ∷ codes "closed"
    ∷ codes "edited"
    ∷ codes "assigned"
    ∷ codes "unassigned"
    ∷ codes "labeled"
    ∷ codes "unlabeled"
    ∷ codes "ready_for_review"
    ∷ codes "converted_to_draft"
    ∷ codes "review_requested"
    ∷ codes "review_request_removed"
    ∷ codes "locked"
    ∷ codes "unlocked"
    ∷ []

-- The filters of one event, by their names in the stored document.
pub record EventFilters : Type 0 where
  pub branches : List Text
  pub branches_ignore : List Text
  pub tags : List Text
  pub tags_ignore : List Text
  pub paths : List Text
  pub paths_ignore : List Text

abbrev pub no_filters : EventFilters
no_filters = record {
  branches = [];
  branches_ignore = [];
  tags = [];
  tags_ignore = [];
  paths = [];
  paths_ignore = [];
}

-- `json!(list)`
abbrev pub list_json : List Text → Json
list_json list = array (strings_json list)

-- `filters["push"]`
unfoldable pub push_json : EventFilters → Json
push_json f = object (
    Object.field (codes "branches") (list_json f.branches) (
      Object.field (codes "branchesIgnore") (list_json f.branches_ignore) (
        Object.field (codes "tags") (list_json f.tags) (
          Object.field (codes "tagsIgnore") (list_json f.tags_ignore) (
            Object.field (codes "paths") (list_json f.paths)
              (Object.field (codes "pathsIgnore") (list_json f.paths_ignore) Object.end))))))

-- `filters["pullRequest"]`
unfoldable pub pull_request_json : List Text → EventFilters → Json
pull_request_json types f = object (
    Object.field (codes "types") (list_json types) (
      Object.field (codes "branches") (list_json f.branches) (
        Object.field (codes "branchesIgnore") (list_json f.branches_ignore) (
          Object.field (codes "paths") (list_json f.paths)
            (Object.field (codes "pathsIgnore") (list_json f.paths_ignore) Object.end)))))

-- The body of the loop over the activity types: allow-listed and deduplicated.
unfoldable pub keep_types : List Text → List Text → Logged (List Text)
keep_types types [] = pure types
keep_types types (value ∷ values) =
    if not (contains pr_activity_types value)
    then (do
      say warning (codes "unknown pull_request activity type `" ++ take 50 value ++ codes "`")
          (codes "on.pull_request.types")
      keep_types types values)
    else keep_types (if contains types value then types else types ++ value ∷ []) values

module _ (yaml : Yaml) where
  open yaml use {as_mapping, lookup}

  -- YAML 1.1 reads an unquoted `on` as a bool.
  unfoldable pub on_value : Entries → Option Value
  on_value root = elim (lookup root (string (codes "on"))) [
    | some v ↦ some v
    | none ↦ lookup root (bool true)
  ]

  unfoldable pub event_names : Value → List Text
  event_names (string event) = event ∷ []
  event_names (sequence events) = strs yaml events
  event_names (mapping events) = key_names events
  event_names _ = []

  unfoldable pub triggers_of : Option Value → Logged (List Text)
  triggers_of none = do
    say error (codes "workflow has no `on` trigger definition") (codes "on")
    pure []
  triggers_of (some on) =
      let triggers = take 50 (filter is_valid_identifier (event_names on)) in
      do
        say_if (is_empty triggers) error (codes "`on` defines no valid trigger events") (codes "on")
        pure triggers

  unfoldable pub extract_triggers : Entries → Logged (List Text)
  extract_triggers root = triggers_of (on_value root)

  -- `get(map, key).and_then(Value::as_mapping)`
  abbrev pub get_mapping : Entries → Text → Option Entries
  get_mapping map key = elim (get yaml map key) [ none ↦ none | some v ↦ as_mapping v ]

  abbrev pub patterns_at : Text → Entries → Text → Logged (List Text)
  patterns_at yaml_key body name =
      filter_patterns yaml (get yaml body name) (codes "on." ++ yaml_key ++ codes "." ++ name)

  -- The include and ignore forms of one dimension.
  unfoldable pub conflict : Text → Entries → Text → Text → Logged (Unit {0})
  conflict yaml_key body include ignore =
      say_if (is_some (get yaml body include) && is_some (get yaml body ignore)) error
        (codes "`on."
          ++ yaml_key
          ++ codes "` cannot combine `"
          ++ include
          ++ codes "` with `"
          ++ ignore
          ++ codes "`")
        (codes "on." ++ yaml_key ++ codes "." ++ ignore)

  abbrev pub conflicts : Text → Entries → Logged (Unit {0})
  conflicts yaml_key body = do
    conflict yaml_key body (codes "branches") (codes "branches-ignore")
    conflict yaml_key body (codes "tags") (codes "tags-ignore")
    conflict yaml_key body (codes "paths") (codes "paths-ignore")

  unfoldable pub push_filters : Option Entries → Logged EventFilters
  push_filters none = pure no_filters
  push_filters (some body) = do
    branches ← patterns_at (codes "push") body (codes "branches")
    branches_ignore ← patterns_at (codes "push") body (codes "branches-ignore")
    tags ← patterns_at (codes "push") body (codes "tags")
    tags_ignore ← patterns_at (codes "push") body (codes "tags-ignore")
    paths ← patterns_at (codes "push") body (codes "paths")
    paths_ignore ← patterns_at (codes "push") body (codes "paths-ignore")
    conflicts (codes "push") body
    pure (record {
      branches = branches;
      branches_ignore = branches_ignore;
      tags = tags;
      tags_ignore = tags_ignore;
      paths = paths;
      paths_ignore = paths_ignore;
    })

  unfoldable pub pull_request_filters : Option Entries → Logged EventFilters
  pull_request_filters none = pure no_filters
  pull_request_filters (some body) = do
    branches ← patterns_at (codes "pull_request") body (codes "branches")
    branches_ignore ← patterns_at (codes "pull_request") body (codes "branches-ignore")
    paths ← patterns_at (codes "pull_request") body (codes "paths")
    paths_ignore ← patterns_at (codes "pull_request") body (codes "paths-ignore")
    conflicts (codes "pull_request") body
    pure (record {
      branches = branches;
      branches_ignore = branches_ignore;
      tags = [];
      tags_ignore = [];
      paths = paths;
      paths_ignore = paths_ignore;
    })

  unfoldable pub pull_request_types : Option Entries → Logged (List Text)
  pull_request_types none = pure []
  pull_request_types (some body) =
      keep_types [] (string_or_list yaml (get yaml body (codes "types")))

  unfoldable pub stored_filters : Option Entries → Logged Json
  stored_filters none = pure (
      object (
        Object.field (codes "push") (push_json no_filters)
          (Object.field (codes "pullRequest") (pull_request_json [] no_filters) Object.end)))
  stored_filters (some events) = do
    push ← push_filters (get_mapping events (codes "push"))
    pull_request ← pull_request_filters (get_mapping events (codes "pull_request"))
    types ← pull_request_types (get_mapping events (codes "pull_request"))
    pure (
        object (
          Object.field (codes "push") (push_json push)
            (Object.field (codes "pullRequest") (pull_request_json types pull_request) Object.end)))

  unfoldable pub extract_trigger_filters : Entries → Logged Json
  extract_trigger_filters root =
      stored_filters (elim (on_value root) [ none ↦ none | some v ↦ as_mapping v ])
