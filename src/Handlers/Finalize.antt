-- ===== src/Handlers/Finalize.antt =====
-- `maybe_finalize` (backend/src/services/pipeline_run.rs): it ends a pipeline once, with the conclusion of
-- its jobs.
use overup.Prelude.{
  ℕ, ◌≡◌, refl, sym, ◌∙◌, subst, ap, false, Option, none, some, List, [], ◌∷◌, All, arith,
}
use overup.Db.Rows.{completed, Verdict, Pipeline}
use overup.Db.Statements.{execute, returning, first}
use overup.Db.Pipelines
use overup.Run.{compute_conclusion}
use overup.World.{World, on_pipelines}
use overup.Handlers.{tell_finalized, finalize_as, maybe_finalize, statuses_for_pipeline}

-- A pipeline with this id is completed.
abbrev pub Ended : ℕ → Pipeline → Type 0
Ended id p = p.id ≡ id → p.status ≡ completed

finalize_ends :
    (now id : ℕ) (v : Verdict) (ps : List Pipeline)
    → All (Ended id) (execute (Pipelines.finalize now id v) ps)
finalize_ends now id v [] = tt
finalize_ends now id v (p ∷ ps) = ((ground arith), finalize_ends now id v ps)

execute-Ended :
    (now id : ℕ) (v : Verdict) (ps : List Pipeline)
    → All (Ended id) ps
    → (execute (Pipelines.finalize now id v) ps ≡ ps)
      × (returning (Pipelines.finalize now id v) ps ≡ [])
execute-Ended now id v [] h = (refl, refl)
execute-Ended now id v (p ∷ ps) (h, hs) =
    let (same, nobody) = execute-Ended now id v ps hs in
    let row : (Pipelines.finalize now id v).guard p ≡ false = ground arith in
    (rw (row, same) refl, rw row nobody)

told-tables :
    (now : ℕ) (v : Verdict) (found : Option Pipeline) (w : World)
    → (tell_finalized now v found w).tables ≡ w.tables
told-tables now v none w = refl
told-tables now v (some p) w = refl

-- A pipeline whose jobs are all completed is completed after it.
pub maybe_finalize-Ended :
    (now id : ℕ) (w : World) (v : Verdict)
    → compute_conclusion (statuses_for_pipeline now id w.tables.jobs) ≡ some v
    → All (Ended id) (maybe_finalize now id w).tables.pipelines
unfolding maybe_finalize
maybe_finalize-Ended now id w v e =
    let u = Pipelines.finalize now id v in
    rw e (
      subst (λ t. All (Ended id) t.pipelines)
        (sym (told-tables now v (first (returning u w.tables.pipelines)) (on_pipelines u w)))
        (finalize_ends now id v w.tables.pipelines))

Ended-same :
    (now id : ℕ) (v : Option Verdict) (w : World)
    → ((u : Verdict) → v ≡ some u → All (Ended id) w.tables.pipelines)
    → finalize_as now id v w ≡ w
Ended-same now id none w h = refl
Ended-same now id (some v) w h =
    let (same, nobody) = execute-Ended now id v w.tables.pipelines (h v refl) in
    rw nobody (ap (λ ps. record w { tables = record w.tables { pipelines = ps } }) same)

finalize_as-jobs :
    (now id : ℕ) (v : Option Verdict) (w : World)
    → (finalize_as now id v w).tables.jobs ≡ w.tables.jobs
finalize_as-jobs now id none w = refl
finalize_as-jobs now id (some v) w =
    let u = Pipelines.finalize now id v in
    ap (λ t. t.jobs) (told-tables now v (first (returning u w.tables.pipelines)) (on_pipelines u w))

maybe_finalize-jobs :
    (now id : ℕ) (w : World) → (maybe_finalize now id w).tables.jobs ≡ w.tables.jobs
unfolding maybe_finalize
maybe_finalize-jobs now id w = finalize_as-jobs now id _ w

-- A second run of `maybe_finalize`, at any later time, changes nothing and tells nobody.
pub maybe_finalize_idempotent :
    (now later id : ℕ) (w : World)
    → maybe_finalize later id (maybe_finalize now id w) ≡ maybe_finalize now id w
unfolding maybe_finalize
maybe_finalize_idempotent now later id w = Ended-same later id _ (maybe_finalize now id w) (λ u e.
    maybe_finalize-Ended now id w u (
      ap (λ jobs. compute_conclusion (statuses_for_pipeline now id jobs))
        (sym (maybe_finalize-jobs now id w))
      ∙ e))
