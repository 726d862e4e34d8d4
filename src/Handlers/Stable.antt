-- ===== src/Handlers/Stable.antt =====
-- What the statements behind a terminal transition preserve, `on_job_finished` and the handlers that
-- call it preserve (backend/src/services/pipeline_run.rs).
use overup.Prelude.{ℕ, Bool, true, false, Option, none, some, List, [], ◌∷◌, if◌then◌else◌}
use overup.Db.Rows.{Verdict, Job, Pipeline}
use overup.Db.Statements.{returning}
use overup.Db.Jobs
use overup.Db.Jobs.{list_for_pipeline, is_success}
use overup.Db.Pipelines
use overup.Run.{Closure}
use overup.World.{Effect, World, emit, on_jobs, on_pipelines, for_each}
use overup.Handlers.{
  tell_skipped, skip_jobs, skip_closure, skip_dependents, tell_finalized, finalize_as,
  maybe_finalize, release_runner, or_failure, on_job_finished, finish_found,
}

module _ (now : ℕ) where
  pub record Stable (P : World → Type 0) : Type 0 where
    pub emits : (e : Effect) (w : World) → P w → P (emit e w)
    pub skips : (ids : List ℕ) (w : World) → P w → P (on_jobs (Jobs.mark_skipped now ids) w)
    pub ends :
        (id : ℕ) (v : Verdict) (w : World) → P w → P (on_pipelines (Pipelines.finalize now id v) w)
    pub frees : (id : ℕ) (w : World) → P w → P (release_runner now (some id) w)

  module _ (P : World → Type 0) (s : Stable P) where
    pub for_each-keeps :
        {A : Type 0} (f : A → World → World)
        → ((x : A) (w : World) → P w → P (f x w))
        → (xs : List A) (w : World) → P w
        → P (for_each f xs w)
    for_each-keeps f h [] w p = p
    for_each-keeps f h (x ∷ xs) w p = for_each-keeps f h xs (f x w) (h x w p)

    skip_jobs-keeps : (id : ℕ) (ids : List ℕ) (w : World) → P w → P (skip_jobs now id ids w)
    skip_jobs-keeps id [] w p = p
    skip_jobs-keeps id (i ∷ ids) w p =
        for_each-keeps (tell_skipped now id) (λ j w p. s.emits _ _ (s.emits _ _ p))
          (returning (Jobs.mark_skipped now (i ∷ ids)) w.tables.jobs) _ (s.skips (i ∷ ids) w p)

    skip_closure-keeps :
        (id : ℕ) (c : Option Closure) (w : World) → P w → P (skip_closure now id c w)
    skip_closure-keeps id none w p = p
    skip_closure-keeps id (some c) w p = skip_jobs-keeps id c.to_skip w p

    pub skip_dependents-keeps : (id : ℕ) (w : World) → P w → P (skip_dependents now id w)
    unfolding skip_dependents
    skip_dependents-keeps id w p = skip_closure-keeps id _ w p

    tell_finalized-keeps :
        (v : Verdict) (found : Option Pipeline) (w : World) → P w → P (tell_finalized now v found w)
    tell_finalized-keeps v none w p = p
    tell_finalized-keeps v (some q) w p = s.emits _ _ (s.emits _ _ (s.emits _ _ (s.emits _ _ p)))

    finalize_as-keeps : (id : ℕ) (v : Option Verdict) (w : World) → P w → P (finalize_as now id v w)
    finalize_as-keeps id none w p = p
    finalize_as-keeps id (some v) w p = tell_finalized-keeps v _ _ (s.ends id v w p)

    pub maybe_finalize-keeps : (id : ℕ) (w : World) → P w → P (maybe_finalize now id w)
    unfolding maybe_finalize
    maybe_finalize-keeps id w p = finalize_as-keeps id _ w p

    release-keeps : (id : Option ℕ) (w : World) → P w → P (release_runner now id w)
    release-keeps none w p = p
    release-keeps (some id) w p = s.frees id w p

    settle-keeps :
        (b : Bool) (id : ℕ) (w : World) → P w → P (if b then w else skip_dependents now id w)
    settle-keeps true id w p = p
    settle-keeps false id w p = skip_dependents-keeps id w p

    pub on_job_finished-keeps : (j : Job) (w : World) → P w → P (on_job_finished now j w)
    unfolding on_job_finished
    on_job_finished-keeps j w p = s.emits _ _ (
        maybe_finalize-keeps j.pipeline_id _ (
          s.emits _ _ (
            settle-keeps (is_success (some (or_failure now j.conclusion))) j.pipeline_id _
              (s.emits _ _ (s.emits _ _ (release-keeps j.runner_id _ (s.emits _ _ p)))))))

    pub finish_found-keeps : (j : Option Job) (w : World) → P w → P (finish_found now j w)
    finish_found-keeps none w p = p
    finish_found-keeps (some j) w p = on_job_finished-keeps j w p
