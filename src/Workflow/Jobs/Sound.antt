-- ===== src/Workflow/Jobs/Sound.antt =====
-- The jobs that `extract_jobs` (backend/src/services/workflow_parse.rs) reads when it reports no error.
use overup.Prelude.{
  ℕ, suc, ◌+◌, ◌≤◌, ◌<◌, ◌≡◌, refl, ap, Bool, true, false, not, ◌&&◌, ◌⊎◌, inl, inr, Option, none,
  some, List, [], ◌∷◌, ◌++◌, if◌then◌else◌, is_empty, length, ltb, All, arith, Text, codes,
}
use overup.Workflow.{Logged, ParsedJob}
use overup.Workflow.Yaml.{Value, Entries, entries, key_name, Yaml}
use overup.Workflow.Errors.{HasNoError, HasNoError-append, HasNoError-say_if, HasNoError-said}
use overup.Workflow.Fields.{is_valid_job_id, get}
use overup.Workflow.Triggers.{is_some}
use overup.Workflow.Inputs.{get_str}
use overup.Workflow.Jobs.{
  max_jobs, max_steps_per_job, steps_of, count_steps, check_steps, read_job, read_body, read_named,
  read_entry, skip_entry, job_path, read_jobs, refuse, jobs_in, jobs_of, extract_jobs,
}

-- A job with a valid id that runs steps or calls a workflow, never both, with at most 100 steps.
abbrev pub IsSoundJob : ParsedJob → Type 0
IsSoundJob j =
    (is_valid_job_id j.key ≡ true)
    × ((j.uses ≡ none) ⊎ (j.step_count ≡ 0))
    × (j.step_count ≤ max_steps_per_job)

not_empty : {A : Type 0} (xs : List A) → is_empty xs ≡ false → 0 < length xs
not_empty [] e = cc e
not_empty (x ∷ xs) e = omega arith

module _ (yaml : Yaml) where
  exclusive :
      (uses : Option Text) (steps : Option (List Value))
      → (is_some uses && is_some steps) ≡ false
      → (uses ≡ none) ⊎ (count_steps yaml steps ≡ 0)
  exclusive none steps e = inl refl
  exclusive (some u) none e = inr refl
  exclusive (some u) (some s) e = cc e

  within_steps : (n : ℕ) → ltb max_steps_per_job n ≡ false → n ≤ max_steps_per_job
  within_steps n e = ground arith

  check_steps-lem :
      (key : Text) (job : Entries)
      → HasNoError (check_steps yaml key job).1
      → ((get_str yaml job (codes "uses") ≡ none) ⊎ (count_steps yaml (steps_of yaml job) ≡ 0))
        × (count_steps yaml (steps_of yaml job) ≤ max_steps_per_job)
  unfolding check_steps
  check_steps-lem key job e =
      let (_, rest) = HasNoError-append _ _ e in
      let (both, rest') = HasNoError-append _ _ rest in
      let (many, _) = HasNoError-append _ _ rest' in
      let few : ltb max_steps_per_job (count_steps yaml (steps_of yaml job)) ≡ false =
        HasNoError-say_if _ _ _ many in
      (exclusive _ _ (HasNoError-say_if _ _ _ both), within_steps _ few)

  read_job-IsSoundJob :
      (key : Text) (position : ℕ) (job : Entries)
      → is_valid_job_id key ≡ true
      → HasNoError (read_job yaml key position job).1
      → IsSoundJob (read_job yaml key position job).0
  unfolding read_job
  read_job-IsSoundJob key position job valid e =
      let (_, rest) = HasNoError-append _ _ e in
      let (steps, _) = HasNoError-append _ _ rest in
      let (one, few) = check_steps-lem key job steps in (valid, one, few)

  -- The entry that is read is a sound job.
  abbrev IsRead : Logged (Option ParsedJob) → Type 0
  IsRead m = (j : ParsedJob) × (m.0 ≡ some j) × IsSoundJob j

  read_body-IsRead :
      (key : Text) (position : ℕ) (map : Option Entries)
      → is_valid_job_id key ≡ true
      → HasNoError (read_body yaml key position map).1
      → IsRead (read_body yaml key position map)
  unfolding read_body
  read_body-IsRead key position none valid e = absurd (HasNoError-said _ _ refl e)
  read_body-IsRead key position (some job) valid e =
      let parsed = HasNoError-append _ _ e in
      (_, refl, read_job-IsSoundJob key position job valid parsed.0)

  named_case :
      (position : ℕ) (body : Value) (name : Text) (valid : Bool)
      → is_valid_job_id name ≡ valid
      → HasNoError
          (if not valid
            then skip_entry yaml (codes "invalid job id `" ++ name ++ codes "`") (job_path name [])
            else read_body yaml name position (yaml.as_mapping body)).1
      → IsRead (
          if not valid
          then skip_entry yaml (codes "invalid job id `" ++ name ++ codes "`") (job_path name [])
          else read_body yaml name position (yaml.as_mapping body))
  named_case position body name true v e = read_body-IsRead name position (yaml.as_mapping body) v e
  named_case position body name false v e = absurd (HasNoError-said _ _ refl e)

  read_named-IsRead :
      (position : ℕ) (body : Value) (name : Option Text)
      → HasNoError (read_named yaml position body name).1
      → IsRead (read_named yaml position body name)
  unfolding read_named
  read_named-IsRead position body none e = absurd (HasNoError-said _ _ refl e)
  read_named-IsRead position body (some name) e = named_case position body name _ refl e

  -- An entry that is skipped is an error.
  read_entry-IsRead :
      (position : ℕ) (key body : Value)
      → HasNoError (read_entry yaml position key body).1
      → IsRead (read_entry yaml position key body)
  unfolding read_entry
  read_entry-IsRead position key body e = read_named-IsRead position body (key_name key) e

  read_jobs-lem :
      (position : ℕ) (es : List (Value × Value))
      → HasNoError (read_jobs yaml position es).1
      → All IsSoundJob (read_jobs yaml position es).0
        × (length (read_jobs yaml position es).0 ≡ length es)
  unfolding read_jobs
  read_jobs-lem position [] e = (tt, refl)
  read_jobs-lem position ((key, body) ∷ es) e =
      let (first, rest) = HasNoError-append _ _ e in
      let (more, _) = HasNoError-append _ _ rest in
      let (j, is_job, sound) = read_entry-IsRead position key body first in
      let (all, same) = read_jobs-lem (position + 1) es more in
      rw is_job ((sound, all), ap suc same)

  -- What `extract_jobs` returns when it reports no error: at least one job and at most 100, one for each entry
  -- of the section, each sound.
  abbrev pub AreSound : List ParsedJob → Type 0
  AreSound jobs = (0 < length jobs) × (length jobs ≤ max_jobs) × All IsSoundJob jobs

  jobs_case :
      (map : Entries) (empty many : Bool)
      → is_empty (entries map) ≡ empty
      → ltb max_jobs (length (entries map)) ≡ many
      → HasNoError
          (if empty
            then refuse yaml (codes "`jobs` defines no jobs")
            else if many
            then refuse yaml (codes "workflow defines more than 100 jobs")
            else read_jobs yaml 0 (entries map)).1
      → AreSound
          (if empty
            then refuse yaml (codes "`jobs` defines no jobs")
            else if many
            then refuse yaml (codes "workflow defines more than 100 jobs")
            else read_jobs yaml 0 (entries map)).0
  jobs_case map true many n m e = absurd (HasNoError-said _ _ refl e)
  jobs_case map false true n m e = absurd (HasNoError-said _ _ refl e)
  jobs_case map false false n m e =
      let (all, same) = read_jobs-lem 0 (entries map) e in
      (rw same (not_empty (entries map) n), rw same (ground (arith, m)), all)

  jobs_in-AreSound :
      (map : Option Entries) → HasNoError (jobs_in yaml map).1 → AreSound (jobs_in yaml map).0
  unfolding jobs_in
  jobs_in-AreSound none e = absurd (HasNoError-said _ _ refl e)
  jobs_in-AreSound (some map) e = jobs_case map _ _ refl refl e

  jobs_of-AreSound :
      (value : Option Value) → HasNoError (jobs_of yaml value).1 → AreSound (jobs_of yaml value).0
  unfolding jobs_of
  jobs_of-AreSound none e = absurd (HasNoError-said _ _ refl e)
  jobs_of-AreSound (some value) e = jobs_in-AreSound (yaml.as_mapping value) e

  pub extract_jobs-AreSound :
      (root : Entries) → HasNoError (extract_jobs yaml root).1 → AreSound (extract_jobs yaml root).0
  unfolding extract_jobs
  extract_jobs-AreSound root e = jobs_of-AreSound (get yaml root (codes "jobs")) e
