-- ===== src/Run.antt =====
-- backend/src/services/pipeline_run.rs: the state machine of pipelines, its pure parts. The conclusion
-- of a pipeline is computed from the statuses of its jobs, and the jobs that can no longer succeed are
-- found by a fixpoint over the `needs` of the jobs.
pub mod Conclusion
pub mod Doomed
pub mod Skip
mod Tests
use overup.Prelude.{
  ℕ, zero, suc, ◌+◌, Bool, true, false, not, ◌&&◌, ◌||◌, Option, none, some, List, [], ◌∷◌, ◌++◌,
  map, if◌then◌else◌, any, is_empty, filter, length, Text, contains,
}
use overup.Db.Rows.{
  Status, completed, JobConclusion, success, failure, cancelled, timed_out, skipped, Verdict, Job,
  is_queued, is_completed,
}
use overup.Db.Jobs.{is_success}

abbrev pub JobState : Type 0
JobState = Status × Option JobConclusion

-- `conclusion.as_deref() == Some(c)`
abbrev pub is_failure : Option JobConclusion → Bool
is_failure (some failure) = true
is_failure _ = false

abbrev pub is_cancelled : Option JobConclusion → Bool
is_cancelled (some cancelled) = true
is_cancelled _ = false

abbrev pub is_timed_out : Option JobConclusion → Bool
is_timed_out (some timed_out) = true
is_timed_out _ = false

abbrev pub has : (Option JobConclusion → Bool) → List JobState → Bool
has test statuses = any (λ s. test s.1) statuses

unfoldable pub compute_conclusion : List JobState → Option Verdict
compute_conclusion statuses =
    if is_empty statuses || any (λ s. not (is_completed s.0)) statuses
    then none
    else some (
        if has is_cancelled statuses
        then Verdict.cancelled
        else if has is_timed_out statuses
        then Verdict.timed_out
        else if has is_failure statuses && has is_success statuses
        then Verdict.partial
        else if has is_failure statuses
        then Verdict.failure
        else Verdict.success)

-- The variables of the loop of `skip_dependents`: the doomed keys, the jobs to skip, last first, and
-- whether the pass has changed anything.
pub record Closure : Type 0 where
  pub doomed : List Text
  pub to_skip : List ℕ
  pub changed : Bool

abbrev pub has_doomed_need : List Text → Job → Bool
has_doomed_need doomed j = any (contains doomed) j.needs

abbrev pub doom : Closure → Job → Closure
doom c j = record { doomed = j.job_key ∷ c.doomed; to_skip = j.id ∷ c.to_skip; changed = true }

-- The body of `for job in &jobs`.
unfoldable pub visit : Closure → Job → Closure
visit c j =
    if not (is_queued j.status) || contains c.doomed j.job_key
    then c
    else if has_doomed_need c.doomed j
    then doom c j
    else c

unfoldable pub pass : Closure → List Job → Closure
pass c [] = c
pass c (j ∷ jobs) = pass (visit c j) jobs

-- The outer loop, on fuel: each pass that changes something dooms one more job (Doomed).
unfoldable pub close : ℕ → List Job → Closure → Option Closure
close zero jobs c = none
close (suc fuel) jobs c =
    let after = pass (record c { changed = false }) jobs in
    let rest = close fuel jobs after in if after.changed then rest else some after

-- The keys that can never succeed to begin with.
abbrev pub failed_keys : List Job → List Text
failed_keys jobs =
    map (λ (j : Job). j.job_key)
      (filter (λ j. is_completed j.status && not (is_success j.conclusion)) jobs)

unfoldable pub doomed_closure : List Job → Option Closure
doomed_closure jobs =
    close (suc (length jobs)) jobs
      (record { doomed = failed_keys jobs; to_skip = []; changed = false })
