-- ===== src/Workflow/Files/Tests.antt =====
-- The file references of a workflow whose step runs a script in a directory of its own.
use overup.Prelude.{◌≡◌, ◌≤◌, refl, [], ◌∷◌, codes, length, All}
use overup.Protocol.{normalize_relative_path}
use overup.Workflow.Yaml.{Entries, end, entry, string, mapping, sequence, cons, nil, key_name}
use overup.Workflow.Plain.{plain}
use overup.Workflow.Words.{strip_prefix, split_once, words_from}
use overup.Workflow.Refs.{text_leb}
use overup.Workflow.Files.{
  max_file_refs, FileRef, script, workdir, static_path, insert_ref, scripts_of, found_path,
  read_raw, read_text, run_refs, defaults_run_working_directory, read_working_directory, step_refs,
  steps_refs, job_refs, jobs_refs, detect_file_refs,
}
use overup.Workflow.Scripts.{script_ref}
use overup.Workflow.Files.Detected.{IsReached, detect_file_refs-IsReached}

abbrev root : Entries
root =
    entry (string (codes "jobs"))
      (mapping (
        entry (string (codes "build"))
          (mapping (
            entry (string (codes "steps"))
              (sequence (
                cons
                  (mapping (
                    entry (string (codes "working-directory")) (string (codes "./app/")) (
                      entry (string (codes "run"))
                        (string (codes "bash ci/run.sh $HOME/x.sh ../y.sh")) end)))
                  nil))
              end))
          end))
      end

the_script_is_found :
    (detect_file_refs plain root).0 ≡ (codes "app", workdir) ∷ (codes "app/ci/run.sh", script) ∷ []
unfolding detect_file_refs jobs_refs job_refs steps_refs step_refs run_refs read_working_directory
    read_text read_raw found_path defaults_run_working_directory scripts_of script_ref insert_ref
    static_path text_leb words_from split_once strip_prefix key_name normalize_relative_path
the_script_is_found = refl

detect_file_refs-IsReached_example :
    (length (detect_file_refs plain root).0 ≤ max_file_refs)
    × All (λ (r : FileRef). IsReached r.0) (detect_file_refs plain root).0
detect_file_refs-IsReached_example = detect_file_refs-IsReached plain root
