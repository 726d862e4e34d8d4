-- ===== src/Run/Tests.antt =====
-- The theorems on conclusions and skipped jobs at small pipelines.
use mathlib.Core.List.{Perm, Permᴰ}
use overup.Prelude.{
  ℕ, ◌≡◌, refl, ◌↔◌, false, Option, none, some, List, [], ◌∷◌, Text, codes, arith, In,
}
use overup.Db.Rows.{Status, completed, JobConclusion, success, failure, Verdict, Stage, Job}
use overup.Run.{JobState, compute_conclusion, Closure, visit, pass, close, doomed_closure}
use overup.Run.Conclusion.{compute_conclusion_iff, Finished, Explains}
use overup.Run.Skip.{UniqueKeys, Skipped, doomed_closure_iff}

abbrev passed : JobState
passed = (completed, some success)

abbrev broken : JobState
broken = (completed, some failure)

swapped : Perm (passed ∷ broken ∷ []) (broken ∷ passed ∷ [])
swapped = ∣ Permᴰ.swap refl refl ∣₁

compute_conclusion_iff_example :
    (compute_conclusion (passed ∷ broken ∷ []) ≡ some Verdict.partial)
    ↔ (Finished (passed ∷ broken ∷ []) × Explains Verdict.partial (passed ∷ broken ∷ []))
compute_conclusion_iff_example = compute_conclusion_iff (passed ∷ broken ∷ []) Verdict.partial

mixed_is_partial : compute_conclusion (passed ∷ broken ∷ []) ≡ some Verdict.partial
unfolding compute_conclusion
mixed_is_partial = refl

abbrev job : ℕ → Text → List Text → Status → Option JobConclusion → Job
job n key needs status conclusion = record {
  id = n;
  pipeline_id = 1;
  job_key = key;
  runs_on = [];
  needs = needs;
  status = status;
  conclusion = conclusion;
  stage = Stage.queued;
  runner_id = none;
  attempt = 1;
  exit_code = none;
  error_category = none;
  timeout_seconds = 60;
  log_bytes = 0;
  position = n;
  metrics = none;
  logs_archived_at = none;
  logs_archive_backend = none;
  queued_at = 5;
  assigned_at = none;
  started_at = none;
  finished_at = none;
}

-- `deploy` needs `test`, which needs `build`, which has failed; `lint` needs nothing.
abbrev chain : List Job
chain =
    job 1 (codes "deploy") (codes "test" ∷ []) Status.queued none
    ∷ job 2 (codes "test") (codes "build" ∷ []) Status.queued none
    ∷ job 3 (codes "build") [] completed (some failure)
    ∷ job 4 (codes "lint") [] Status.queued none
    ∷ []

chain-UniqueKeys : UniqueKeys chain
chain-UniqueKeys j j' i i' e = ground arith

doomed_closure_iff_example :
    (out : Closure) × (doomed_closure chain ≡ some out)
    × ((i : ℕ) → In i out.to_skip ↔ Skipped chain i)
doomed_closure_iff_example = doomed_closure_iff chain chain-UniqueKeys

-- Both dependent jobs are skipped, the later one first found.
chain_skips :
    (doomed_closure chain
      ≡ some (record {
        doomed = codes "deploy" ∷ codes "test" ∷ codes "build" ∷ [];
        to_skip = 1 ∷ 2 ∷ [];
        changed = false;
      }))
unfolding doomed_closure close pass visit
chain_skips = refl
