-- ===== src/Workflow/Files/Detected.antt =====
-- What `detect_file_refs` (backend/src/services/workflow_parse.rs) stores.
use overup.Prelude.{
  ℕ, zero, suc, ◌+◌, ◌≤◌, ◌≡◌, refl, inl, inr, Option, none, some, List, [], ◌∷◌, ◌++◌, All, take,
  length, Bool-cases, Option-cases, Text, byte_len, codes,
}
use overup.Protocol.{segments_of, normalize_relative_path, max_relative_path_bytes}
use overup.Protocol.Paths.{walk, below, walk-safe}
use overup.Workflow.Yaml.{Value, Entries, key_name, Yaml}
use overup.Workflow.Words.{includes}
use overup.Workflow.Fields.{get}
use overup.Workflow.Fields.Caps.{length-take}
use overup.Workflow.Triggers.{get_mapping}
use overup.Workflow.Inputs.{get_str}
use overup.Workflow.Jobs.{steps_of}
use overup.Workflow.Files.{
  max_file_refs, WorkdirValue, FileRef, read_raw, read_text, defaults_run_working_directory,
  read_working_directory, step_path, step_refs, steps_refs, steps_list, job_refs, jobs_refs,
  jobs_entries, detect_file_refs,
}
use overup.Workflow.Files.Inside.{
  AllInside, insert_workdir-AllInside, IsStaticInside, or_outer-IsStaticInside, run_refs-AllInside,
  found_path-IsStaticInside,
}

-- The path is short, and the walk along it goes down only.
abbrev pub IsReached : Text → Type 0
IsReached path =
    (byte_len path ≤ max_relative_path_bytes)
    × ((dir : List Text) → walk (segments_of path) dir ≡ some (below (segments_of path) dir))

module _ (yaml : Yaml) where
  read_raw-IsStaticInside : (raw path : Text) → IsStaticInside (read_raw raw path).0
  unfolding read_raw
  read_raw-IsStaticInside raw path = elim (Bool-cases (includes (codes "${{") raw)) [
    | inl dyn ↦ rw dyn tt
    | inr plain ↦ rw plain (found_path-IsStaticInside raw path (normalize_relative_path raw) refl)
  ]

  as_text-IsStaticInside : (raw : Option Text) (path : Text) → IsStaticInside (read_text raw path).0
  unfolding read_text
  as_text-IsStaticInside none path = tt
  as_text-IsStaticInside (some raw) path = read_raw-IsStaticInside raw path

  read_working_directory-IsStaticInside :
      (value : Option Value) (path : Text)
      → IsStaticInside (read_working_directory yaml value path).0
  unfolding read_working_directory
  read_working_directory-IsStaticInside none path = tt
  read_working_directory-IsStaticInside (some value) path =
      as_text-IsStaticInside (yaml.as_str value) path

  step_refs-AllInside :
      (key : Text) (outer : WorkdirValue) (index : ℕ) (step : Entries) (refs : List FileRef)
      → IsStaticInside outer
      → AllInside refs
      → AllInside (step_refs yaml key outer index step refs).0
  unfolding step_refs
  step_refs-AllInside key outer index step refs o h =
      let own =
        read_working_directory-IsStaticInside (get yaml step (codes "working-directory"))
          (step_path yaml key index) in
      run_refs-AllInside _ (get_str yaml step (codes "run")) _
        (or_outer-IsStaticInside _ outer own o) (insert_workdir-AllInside _ refs own h)

  steps_refs-AllInside :
      (key : Text) (outer : WorkdirValue) (index : ℕ) (steps : List Value) (refs : List FileRef)
      → IsStaticInside outer
      → AllInside refs
      → AllInside (steps_refs yaml key outer index steps refs).0
  unfolding steps_refs
  steps_refs-AllInside key outer index [] refs o h = h
  steps_refs-AllInside key outer index (step ∷ steps) refs o h =
      let rest = λ (more : List FileRef) (m : AllInside more).
        steps_refs-AllInside key outer (index + 1) steps more o m in
      elim (Option-cases (yaml.as_mapping step)) [
        | inl skipped ↦ rw (skipped, steps_refs) (rest refs h)
        | inr (map, found) ↦
            rw (found, steps_refs) (rest _ (step_refs-AllInside key outer index map refs o h))
      ]

  job_refs-AllInside :
      (outer : WorkdirValue) (key : Text) (job : Entries) (refs : List FileRef)
      → IsStaticInside outer
      → AllInside refs
      → AllInside (job_refs yaml outer key job refs).0
  unfolding job_refs
  job_refs-AllInside outer key job refs o h =
      let own =
        read_working_directory-IsStaticInside (defaults_run_working_directory yaml job)
          (codes "jobs." ++ key ++ codes ".defaults.run.working-directory") in
      steps_refs-AllInside key _ 0 (steps_list yaml (steps_of yaml job)) _
        (or_outer-IsStaticInside _ outer own o) (insert_workdir-AllInside _ refs own h)

  jobs_refs-AllInside :
      (outer : WorkdirValue) (entries : List (Value × Value)) (refs : List FileRef)
      → IsStaticInside outer
      → AllInside refs
      → AllInside (jobs_refs yaml outer entries refs).0
  unfolding jobs_refs
  jobs_refs-AllInside outer [] refs o h = h
  jobs_refs-AllInside outer ((key, body) ∷ entries) refs o h =
      let rest =
        λ (more : List FileRef) (m : AllInside more). jobs_refs-AllInside outer entries more o m in
      elim (Option-cases (key_name key)) [
        | inl nameless ↦ rw (nameless, jobs_refs) (rest refs h)
        | inr (name, named) ↦
            rw (named, jobs_refs)
              (elim (Option-cases (yaml.as_mapping body)) [
                | inl flat ↦ rw (flat, jobs_refs) (rest refs h)
                | inr (job, found) ↦
                    rw (found, jobs_refs) (rest _ (job_refs-AllInside outer name job refs o h))
              ])
      ]

  take-AllInside : (n : ℕ) (refs : List FileRef) → AllInside refs → AllInside (take n refs)
  take-AllInside zero refs h = tt
  take-AllInside (suc n) [] h = tt
  take-AllInside (suc n) (r ∷ refs) (h, hs) = (h, take-AllInside n refs hs)

  walks : (refs : List FileRef) → AllInside refs → All (λ (r : FileRef). IsReached r.0) refs
  walks [] h = tt
  walks (r ∷ refs) ((short, safe), hs) =
      ((short, λ dir. walk-safe (segments_of r.0) dir safe), walks refs hs)

  -- At most 100 references are stored. Each names a path of at most 255 bytes that never leaves the
  -- workspace: from any directory, each of its segments is entered in turn, also where a script's path is
  -- joined to a working directory.
  pub detect_file_refs-IsReached :
      (root : Entries)
      → (length (detect_file_refs yaml root).0 ≤ max_file_refs)
        × All (λ (r : FileRef). IsReached r.0) (detect_file_refs yaml root).0
  unfolding detect_file_refs
  detect_file_refs-IsReached root =
      let own =
        read_working_directory-IsStaticInside (defaults_run_working_directory yaml root)
          (codes "defaults.run.working-directory") in
      let all =
        jobs_refs-AllInside _ (jobs_entries yaml (get_mapping yaml root (codes "jobs"))) _ own
          (insert_workdir-AllInside _ [] own tt) in
      (length-take max_file_refs _, walks _ (take-AllInside max_file_refs _ all))
