-- ===== src/Workflow/Files.antt =====
-- backend/src/services/workflow_parse.rs, `detect_file_refs`: the working directories and scripts that a workflow
-- names in plain text.
pub mod Inside
pub mod Detected
mod Tests
use overup.Prelude.{
  Bool, true, false, not, ◌&&◌, ◌||◌, ℕ, zero, suc, ◌+◌, Option, none, some, List, [], ◌∷◌, ◌++◌,
  if◌then◌else◌, filter, take, leb, ltb, ◌==◌, any, is_empty, length, Text, codes, contains,
  text_eq, byte_len,
}
use overup.Protocol.{normalize_relative_path, max_relative_path_bytes}
use overup.Workflow.{Diagnostic, warning, Logged, ◌>>=◌, ◌>>◌, pure, say, say_if}
use overup.Workflow.Yaml.{Value, Entries, entries, key_name, Yaml}
use overup.Workflow.Words.{includes, split_whitespace, decimal, is_control}
use overup.Workflow.Fields.{get}
use overup.Workflow.Refs.{text_leb}
use overup.Workflow.Triggers.{get_mapping}
use overup.Workflow.Inputs.{get_str}
use overup.Workflow.Scripts.{script_ref}
use overup.Workflow.Jobs.{max_jobs, max_steps_per_job, steps_of}

abbrev pub max_file_refs : ℕ
max_file_refs = 100

-- `absent` is the source's `None`: the key is missing.
pub data WorkdirValue : Type 0 where
  absent : WorkdirValue
  dynamic : WorkdirValue
  static : Text → WorkdirValue
  invalid : WorkdirValue

unfoldable pub static_path : WorkdirValue → Option Text
static_path (static path) = some path
static_path _ = none

pub data Kind : Type 0 where
  script : Kind
  workdir : Kind

abbrev pub FileRef : Type 0
FileRef = Text × Kind

-- The order of the pairs: by path, `script` before `workdir`.
abbrev pub kind_leb : Kind → Kind → Bool
kind_leb script k = true
kind_leb workdir script = false
kind_leb workdir workdir = true

abbrev pub ref_leb : FileRef → FileRef → Bool
ref_leb (p, k) (q, l) = if text_eq p q then kind_leb k l else text_leb p q

abbrev pub same_kind : Kind → Kind → Bool
same_kind k l = kind_leb k l && kind_leb l k

-- `BTreeSet::insert`
unfoldable pub insert_ref : FileRef → List FileRef → List FileRef
insert_ref r [] = r ∷ []
insert_ref (p, k) ((q, l) ∷ refs) =
    let later = insert_ref (p, k) refs in
    if text_eq p q && same_kind k l
    then (q, l) ∷ refs
    else if ref_leb (p, k) (q, l)
    then (p, k) ∷ (q, l) ∷ refs
    else (q, l) ∷ later

abbrev pub insert_workdir : WorkdirValue → List FileRef → List FileRef
insert_workdir wd refs = elim (static_path wd) [
  | none ↦ refs
  | some path ↦ insert_ref (path, workdir) refs
]

abbrev pub sanitize_fragment : Text → Text
sanitize_fragment value = take 100 (filter (λ c. not (is_control c)) value)

-- A step or job without a directory of its own has that of what it stands in.
abbrev pub or_outer : WorkdirValue → WorkdirValue → WorkdirValue
or_outer absent outer = outer
or_outer other outer = other

abbrev pub is_dynamic : WorkdirValue → Bool
is_dynamic dynamic = true
is_dynamic _ = false

-- The loop over the words of a `run` command.
unfoldable pub scripts_of : Option Text → List Text → List FileRef → List FileRef
scripts_of base [] refs = refs
scripts_of base (token ∷ tokens) refs =
    let rest =
      scripts_of base tokens (elim (script_ref token base) [
        | none ↦ refs
        | some path ↦ insert_ref (path, script) refs
      ]) in
    if leb (max_file_refs + max_file_refs) (length refs) then refs else rest

-- A path that is not accepted is a warning.
unfoldable pub found_path : Text → Text → Option Text → Logged WorkdirValue
found_path raw path (some normalized) = pure (static normalized)
found_path raw path none = do
  say warning
      (codes "working-directory `"
        ++ sanitize_fragment raw
        ++ codes
            "` is not a supported workspace-relative path; the affected steps run at the workspace root")
      path
  pure invalid

unfoldable pub read_raw : Text → Text → Logged WorkdirValue
read_raw raw path =
    if includes (codes "${{") raw
    then pure dynamic
    else found_path raw path (normalize_relative_path raw)

unfoldable pub read_text : Option Text → Text → Logged WorkdirValue
read_text (some raw) path = read_raw raw path
read_text none path = do
  say warning
      (codes "`working-directory` must be a string; the affected steps run at the workspace root")
      path
  pure invalid

-- The scripts of a `run` command, under the directory that is in force.
unfoldable pub run_refs : WorkdirValue → Option Text → List FileRef → List FileRef
run_refs effective none named = named
run_refs effective (some run) named =
    if is_dynamic effective
    then named
    else scripts_of (static_path effective) (split_whitespace run) named

module _ (yaml : Yaml) where
  open yaml use {as_str, as_mapping}

  unfoldable pub defaults_run_working_directory : Entries → Option Value
  defaults_run_working_directory node = elim (get_mapping yaml node (codes "defaults")) [
    | none ↦ none
    | some defaults ↦ elim (get_mapping yaml defaults (codes "run")) [
      | none ↦ none
      | some run ↦ get yaml run (codes "working-directory")
    ]
  ]

  unfoldable pub read_working_directory : Option Value → Text → Logged WorkdirValue
  read_working_directory none path = pure absent
  read_working_directory (some value) path = read_text (as_str value) path

  abbrev pub step_path : Text → ℕ → Text
  step_path job_key index =
      codes "jobs." ++ job_key ++ codes ".steps[" ++ decimal index ++ codes "].working-directory"

  unfoldable pub step_refs :
      Text → WorkdirValue → ℕ → Entries → List FileRef → Logged (List FileRef)
  step_refs job_key job_default index step refs = do
    step_wd ←
        read_working_directory (get yaml step (codes "working-directory")) (step_path job_key index)
    pure (
        run_refs (or_outer step_wd job_default) (get_str yaml step (codes "run"))
          (insert_workdir step_wd refs))

  unfoldable pub steps_refs :
      Text → WorkdirValue → ℕ → List Value → List FileRef → Logged (List FileRef)
  steps_refs job_key job_default index [] refs = pure refs
  steps_refs job_key job_default index (step ∷ steps) refs =
      let skipped = steps_refs job_key job_default (index + 1) steps refs in
      elim (as_mapping step) [
        | none ↦ skipped
        | some map ↦ do
          more ← step_refs job_key job_default index map refs
          steps_refs job_key job_default (index + 1) steps more
      ]

  abbrev pub steps_list : Option (List Value) → List Value
  steps_list none = []
  steps_list (some steps) = take max_steps_per_job steps

  unfoldable pub job_refs : WorkdirValue → Text → Entries → List FileRef → Logged (List FileRef)
  job_refs workflow_wd job_key job refs = do
    job_wd ←
        read_working_directory (defaults_run_working_directory job)
          (codes "jobs." ++ job_key ++ codes ".defaults.run.working-directory")
    steps_refs job_key (or_outer job_wd workflow_wd) 0 (steps_list (steps_of yaml job))
        (insert_workdir job_wd refs)

  unfoldable pub jobs_refs :
      WorkdirValue → List (Value × Value) → List FileRef → Logged (List FileRef)
  jobs_refs workflow_wd [] refs = pure refs
  jobs_refs workflow_wd ((key, body) ∷ rest) refs =
      let skipped = jobs_refs workflow_wd rest refs in
      elim (key_name key) [
        | none ↦ skipped
        | some job_key ↦ elim (as_mapping body) [
          | none ↦ skipped
          | some job ↦ do
            more ← job_refs workflow_wd job_key job refs
            jobs_refs workflow_wd rest more
        ]
      ]

  abbrev pub jobs_entries : Option Entries → List (Value × Value)
  jobs_entries none = []
  jobs_entries (some map) = take max_jobs (entries map)

  unfoldable pub detect_file_refs : Entries → Logged (List FileRef)
  detect_file_refs root = do
    workflow_wd ←
        read_working_directory (defaults_run_working_directory root)
          (codes "defaults.run.working-directory")
    refs ←
        jobs_refs workflow_wd (jobs_entries (get_mapping yaml root (codes "jobs")))
          (insert_workdir workflow_wd [])
    pure (take max_file_refs refs)
