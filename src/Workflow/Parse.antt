-- ===== src/Workflow/Parse.antt =====
-- backend/src/services/workflow_parse.rs, `parse_and_validate`. The YAML parser is a parameter.
pub mod Accepted
mod Tests
use overup.Prelude.{
  Bool, true, false, not, ◌&&◌, ◌*◌, ℕ, Option, none, some, List, [], ◌∷◌, ◌++◌, if◌then◌else◌,
  take, ltb, map, Text, codes, contains, byte_len,
}
use overup.Workflow.{
  Diagnostic, Severity, error, warning, report, Logged, ◌>>=◌, ◌>>◌, pure, say, say_if, ParsedJob,
}
use overup.Workflow.Yaml.{Value, Entries, key_name, Yaml, Json, Array, Object, array, object}
use overup.Workflow.Budget.{check_budget}
use overup.Workflow.Needs.{validate_needs}
use overup.Workflow.Fields.{key_names, get}
use overup.Workflow.Documents.{value_to_json}
use overup.Workflow.Triggers.{extract_triggers, extract_trigger_filters, get_mapping, list_json}
use overup.Workflow.Inputs.{get_str, DispatchInput, input_json, extract_dispatch_inputs}
use overup.Workflow.Jobs.{extract_jobs}
use overup.Workflow.Refs.{scan_secret_refs, scan_var_refs, distinct_environments}
use overup.Workflow.Files.{FileRef, Kind, script, workdir, detect_file_refs}

abbrev pub known_top_level_keys : List Text
known_top_level_keys =
    codes "name"
    ∷ codes "run-name"
    ∷ codes "on"
    ∷ codes "permissions"
    ∷ codes "env"
    ∷ codes "defaults"
    ∷ codes "concurrency"
    ∷ codes "jobs"
    ∷ []

abbrev pub max_workflow_file_bytes : ℕ
max_workflow_file_bytes = 512 * 1024

-- What the YAML parser answers: a document, or a message with the line where it is known.
pub data Parsed : Type 0 where
  document : Value → Parsed
  failed : Text → Option ℕ → Parsed

pub record ParsedWorkflow : Type 0 where
  pub name : Option Text
  pub triggers : List Text
  pub jobs : List ParsedJob
  pub metadata : Json
  pub diagnostics : List Diagnostic

abbrev pub version_field : Object → Object
version_field = Object.field (codes "parserVersion") (Json.number (codes "4"))

-- `ParsedWorkflow::failed`
abbrev pub failed_workflow : Diagnostic → ParsedWorkflow
failed_workflow d = record {
  name = none;
  triggers = [];
  jobs = [];
  metadata = object (version_field Object.end);
  diagnostics = d ∷ [];
}

abbrev pub too_large : ParsedWorkflow
too_large =
    failed_workflow (report error (codes "workflow file exceeds the 524288 byte limit") none)

unfoldable pub warn_top_level : List Text → Logged (Unit {0})
warn_top_level [] = pure tt
warn_top_level (key ∷ keys) = do
  say_if (not (contains known_top_level_keys key)) warning
      (codes "unknown top-level key `" ++ key ++ codes "`") key
  warn_top_level keys

abbrev pub kind_name : Kind → Text
kind_name script = codes "script"
kind_name workdir = codes "workdir"

abbrev pub file_ref_json : FileRef → Json
file_ref_json (path, kind) = object (
    Object.field (codes "path") (Json.string path)
      (Object.field (codes "kind") (Json.string (kind_name kind)) Object.end))

abbrev pub array_of : List Json → Array
array_of [] = Array.nil
array_of (v ∷ rest) = Array.cons v (array_of rest)

module _ (yaml : Yaml) where
  open yaml use {as_mapping}

  abbrev pub json_at : Entries → Text → Json
  json_at root key = elim (get yaml root key) [ none ↦ Json.null | some v ↦ value_to_json yaml v ]

  abbrev pub env_keys : Entries → List Text
  env_keys root = elim (get_mapping yaml root (codes "env")) [
    | none ↦ []
    | some map ↦ key_names map
  ]

  unfoldable pub metadata_of : Text → Entries → List ParsedJob → Logged Json
  metadata_of content root jobs = do
    inputs ← extract_dispatch_inputs yaml root
    filters ← extract_trigger_filters yaml root
    refs ← detect_file_refs yaml root
    pure (
        object (
          version_field (
            Object.field (codes "permissions") (json_at root (codes "permissions")) (
              Object.field (codes "concurrency") (json_at root (codes "concurrency")) (
                Object.field (codes "envKeys") (list_json (env_keys root)) (
                  Object.field (codes "secretRefs") (list_json (scan_secret_refs content)) (
                    Object.field (codes "varRefs") (list_json (scan_var_refs content)) (
                      Object.field (codes "environments") (list_json (distinct_environments jobs)) (
                        Object.field (codes "dispatchInputs")
                          (array (array_of (map input_json inputs)))
                          (Object.field (codes "triggerFilters") filters (
                            Object.field (codes "fileRefs")
                              (array (array_of (map file_ref_json refs))) Object.end)))))))))))

  -- `validate_needs(&jobs, &mut diagnostics)`
  abbrev pub check_needs : List ParsedJob → Logged (Unit {0})
  check_needs jobs = (tt, validate_needs jobs)

  unfoldable pub read_root : Text → Entries → Logged (List Text × List ParsedJob × Json)
  read_root content root = do
    warn_top_level (key_names root)
    triggers ← extract_triggers yaml root
    jobs ← extract_jobs yaml root
    check_needs jobs
    metadata ← metadata_of content root jobs
    pure (triggers, jobs, metadata)

  unfoldable pub workflow_of : Text → Entries → ParsedWorkflow
  workflow_of content root =
      let (found, diagnostics) = read_root content root in
      record {
        name = elim (get_str yaml root (codes "name")) [ none ↦ none | some s ↦ some (take 200 s) ];
        triggers = found.0;
        jobs = found.1;
        metadata = found.2;
        diagnostics = diagnostics;
      }

  -- The root, which `as_mapping` gives.
  unfoldable pub read_mapping : Text → Option Entries → ParsedWorkflow
  read_mapping content none =
      failed_workflow (report error (codes "workflow root must be a mapping") none)
  read_mapping content (some root) = workflow_of content root

  -- What `check_budget` says of the document comes first.
  unfoldable pub read_budgeted : Text → Value → Option Diagnostic → ParsedWorkflow
  read_budgeted content value (some d) = failed_workflow d
  read_budgeted content value none = read_mapping content (as_mapping value)

  unfoldable pub read_parsed : Text → Parsed → ParsedWorkflow
  read_parsed content (failed message line) = failed_workflow (record {
    severity = error;
    message = codes "YAML parse error: " ++ message;
    path = none;
    line = line;
  })
  read_parsed content (document value) = read_budgeted content value (check_budget value)

  unfoldable pub parse_and_validate : (Text → Parsed) → Text → ParsedWorkflow
  parse_and_validate from_str content =
      if ltb max_workflow_file_bytes (byte_len content)
      then too_large
      else read_parsed content (from_str content)
