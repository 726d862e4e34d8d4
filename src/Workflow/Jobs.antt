-- ===== src/Workflow/Jobs.antt =====
-- backend/src/services/workflow_parse.rs, `extract_jobs`: the jobs of a workflow, and what is wrong with
-- them.
pub mod Sound
use overup.Prelude.{
  Bool, true, false, not, ◌&&◌, ◌||◌, ℕ, zero, suc, ◌+◌, Option, none, some, List, [], ◌∷◌, ◌++◌,
  if◌then◌else◌, filter, take, leb, ltb, is_empty, length, Text, codes, contains,
}
use overup.Workflow.{Diagnostic, error, warning, Logged, ◌>>=◌, ◌>>◌, pure, say, say_if, ParsedJob}
use overup.Workflow.Yaml.{Value, Entries, entries, key_name, Yaml, Json}
use overup.Workflow.Words.{trim}
use overup.Workflow.Fields.{is_valid_job_id, key_names, get, string_or_list}
use overup.Workflow.Documents.{value_to_json}
use overup.Workflow.Triggers.{is_some, get_mapping}
use overup.Workflow.Inputs.{get_str}

abbrev pub max_jobs : ℕ
max_jobs = 100

abbrev pub max_steps_per_job : ℕ
max_steps_per_job = 100

abbrev pub known_job_keys : List Text
known_job_keys =
    codes "name"
    ∷ codes "permissions"
    ∷ codes "needs"
    ∷ codes "if"
    ∷ codes "runs-on"
    ∷ codes "environment"
    ∷ codes "concurrency"
    ∷ codes "outputs"
    ∷ codes "env"
    ∷ codes "defaults"
    ∷ codes "steps"
    ∷ codes "timeout-minutes"
    ∷ codes "strategy"
    ∷ codes "continue-on-error"
    ∷ codes "container"
    ∷ codes "services"
    ∷ codes "uses"
    ∷ codes "with"
    ∷ codes "secrets"
    ∷ []

abbrev pub job_path : Text → Text → Text
job_path key field = codes "jobs." ++ key ++ field

abbrev pub about_job : Text → Text → Text → Text
about_job before key after = before ++ codes "job `" ++ key ++ codes "`" ++ after

-- The keys of a job that are in no schema.
unfoldable pub warn_unknown : Text → List Text → Logged (Unit {0})
warn_unknown job_key [] = pure tt
warn_unknown job_key (key ∷ keys) = do
  say_if (not (contains known_job_keys key)) warning
      (codes "unknown key `" ++ key ++ codes "` in job `" ++ job_key ++ codes "`")
      (job_path job_key (codes "." ++ key))
  warn_unknown job_key keys

module _ (yaml : Yaml) where
  open yaml use {as_str, as_sequence, as_mapping}

  abbrev pub steps_of : Entries → Option (List Value)
  steps_of job = elim (get yaml job (codes "steps")) [ none ↦ none | some v ↦ as_sequence v ]

  abbrev pub count_steps : Option (List Value) → ℕ
  count_steps none = 0
  count_steps (some steps) = length steps

  -- A string, or a mapping with a name.
  unfoldable pub environment_name : Value → Option Text
  environment_name value = elim (as_str value) [
    | some s ↦ some (trim s)
    | none ↦ elim (as_mapping value) [
      | none ↦ none
      | some map ↦ elim (get_str yaml map (codes "name")) [ none ↦ none | some s ↦ some (trim s) ]
    ]
  ]

  unfoldable pub read_environment : Text → Option Value → Logged (Option Text)
  read_environment job_key none = pure none
  read_environment job_key (some value) =
      let malformed : Logged (Option Text) = (do
        say warning
            (about_job [] job_key
              (codes " has a malformed `environment` (expected a string or a map with `name`)"))
            (job_path job_key (codes ".environment"))
        pure none) in
      elim (environment_name value) [
        | none ↦ malformed
        | some name ↦ if is_empty name then malformed else pure (some (take 100 name))
      ]

  -- A matrix that is neither a mapping nor a string.
  unfoldable pub has_bad_matrix : Entries → Bool
  has_bad_matrix job = elim (get_mapping yaml job (codes "strategy")) [
    | none ↦ false
    | some strategy ↦ elim (get yaml strategy (codes "matrix")) [
      | none ↦ false
      | some matrix ↦ not (is_some (as_mapping matrix)) && not (is_some (as_str matrix))
    ]
  ]

  -- What is wrong with the steps of a job.
  unfoldable pub check_steps : Text → Entries → Logged (Unit {0})
  check_steps job_key job =
      let has_uses = is_some (get_str yaml job (codes "uses")) in
      let has_steps = is_some (steps_of job) in
      do
        say_if (not has_uses && not has_steps) error
            (about_job [] job_key (codes " has neither `steps` nor `uses`")) (job_path job_key [])
        say_if (has_uses && has_steps) error
            (about_job [] job_key (codes " cannot combine `uses` with `steps`"))
            (job_path job_key [])
        say_if (ltb max_steps_per_job (count_steps (steps_of job))) error
            (about_job [] job_key (codes " exceeds 100 steps")) (job_path job_key (codes ".steps"))
        say_if (not has_uses && not (is_some (get yaml job (codes "runs-on")))) warning
            (about_job [] job_key (codes " does not declare `runs-on`"))
            (job_path job_key (codes ".runs-on"))

  unfoldable pub read_job : Text → ℕ → Entries → Logged ParsedJob
  read_job job_key position job = do
    warn_unknown job_key (key_names job)
    check_steps job_key job
    environment ← read_environment job_key (get yaml job (codes "environment"))
    say_if (has_bad_matrix job) error
        (about_job [] job_key (codes " has a malformed `strategy.matrix`"))
        (job_path job_key (codes ".strategy.matrix"))
    pure (record {
      key = job_key;
      name = elim (get_str yaml job (codes "name")) [ none ↦ none | some s ↦ some (take 200 s) ];
      runs_on = string_or_list yaml (get yaml job (codes "runs-on"));
      needs = string_or_list yaml (get yaml job (codes "needs"));
      uses = get_str yaml job (codes "uses");
      strategy = elim (get yaml job (codes "strategy")) [
        | none ↦ none
        | some v ↦ some (value_to_json yaml v)
      ];
      environment = environment;
      step_count = count_steps (steps_of job);
      position = position;
    })

  abbrev pub skip_entry : Text → Text → Logged (Option ParsedJob)
  skip_entry message path = do say error message path; pure none

  unfoldable pub read_body : Text → ℕ → Option Entries → Logged (Option ParsedJob)
  read_body job_key position none =
      skip_entry (about_job [] job_key (codes " must be a mapping")) (job_path job_key [])
  read_body job_key position (some job) = do
    parsed ← read_job job_key position job
    pure (some parsed)

  unfoldable pub read_named : ℕ → Value → Option Text → Logged (Option ParsedJob)
  read_named position body none = skip_entry (codes "job id must be a string") (codes "jobs")
  read_named position body (some job_key) =
      if not (is_valid_job_id job_key)
      then skip_entry (codes "invalid job id `" ++ job_key ++ codes "`") (job_path job_key [])
      else read_body job_key position (as_mapping body)

  -- One round of the loop: `none` where the entry is skipped.
  unfoldable pub read_entry : ℕ → Value → Value → Logged (Option ParsedJob)
  read_entry position key body = read_named position body (key_name key)

  abbrev pub keep : Option ParsedJob → List ParsedJob → List ParsedJob
  keep none jobs = jobs
  keep (some job) jobs = job ∷ jobs

  unfoldable pub read_jobs : ℕ → List (Value × Value) → Logged (List ParsedJob)
  read_jobs position [] = pure []
  read_jobs position ((key, body) ∷ rest) = do
    job ← read_entry position key body
    jobs ← read_jobs (position + 1) rest
    pure (keep job jobs)

  abbrev pub refuse : Text → Logged (List ParsedJob)
  refuse message = do say error message (codes "jobs"); pure []

  -- The entries of the section, which `as_mapping` gives.
  unfoldable pub jobs_in : Option Entries → Logged (List ParsedJob)
  jobs_in none = refuse (codes "`jobs` must be a mapping of job ids")
  jobs_in (some map) =
      if is_empty (entries map)
      then refuse (codes "`jobs` defines no jobs")
      else if ltb max_jobs (length (entries map))
      then refuse (codes "workflow defines more than 100 jobs")
      else read_jobs 0 (entries map)

  unfoldable pub jobs_of : Option Value → Logged (List ParsedJob)
  jobs_of none = refuse (codes "workflow has no `jobs` section")
  jobs_of (some value) = jobs_in (as_mapping value)

  unfoldable pub extract_jobs : Entries → Logged (List ParsedJob)
  extract_jobs root = jobs_of (get yaml root (codes "jobs"))
