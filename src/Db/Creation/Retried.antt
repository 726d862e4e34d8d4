-- ===== src/Db/Creation/Retried.antt =====
-- A webhook delivery that is tried again (backend/src/db/pipelines.rs, `create`).
use overup.Prelude.{
  ℕ, ◌≡◌, ◌⊎◌, inl, inr, refl, sym, subst, ◌∙◌, ap, All-In, true, none, some, List, [], ◌∷◌, In,
  find, map, Bool-cases, Option-cases, Text, text_eq_refl, ==_refl,
}
use overup.Db.Rows.{Pipeline, Job}
use overup.Plan.{PlannedJob}
use overup.Db.Creation.{
  NewPipeline, Store, created, existing, is_of, find_existing, number_of, new_row, has_duplicates,
  commit, insert, create,
}
use overup.Db.Creation.Once.{
  AllApart, IsNumbered, Creates, start, more, is_of-columns, Creates-IsNumbered, create-IsNumbered,
}

-- The row stands in the table, under the delivery and the workflow.
abbrev IsKept : NewPipeline → Pipeline → List Pipeline → Type 0
IsKept new p pipelines =
    In p pipelines
    × (p.webhook_delivery_id ≡ new.webhook_delivery_id)
    × (p.workflow_id ≡ some new.workflow_id)

module _ (new : NewPipeline) (planned : List PlannedJob) (id : ℕ) (ids : ℕ → ℕ) (now : ℕ) where
  commit-IsKept :
      (s t : Store) (p : Pipeline) (rows : List Job)
      → commit new planned id ids now s ≡ (created p rows, t)
      → IsKept new p t.pipelines
  unfolding commit
  commit-IsKept s t p rows e =
      let row = new_row new id (number_of (s.counters new.repository_id)) now in
      let same : row ≡ p = cc (ap (λ x. x.0) e) in
      let table : row ∷ s.pipelines ≡ t.pipelines = ap (λ x. x.1.pipelines) e in
      rw (← table, ← same) (inl refl, refl, refl)

  insert-IsKept :
      (s t : Store) (p : Pipeline) (rows : List Job)
      → insert new planned id ids now s ≡ (created p rows, t)
      → IsKept new p t.pipelines
  unfolding insert
  insert-IsKept s t p rows e = elim (Option-cases (find_existing new s)) [
    | inr (winner, f) ↦ cc (ap (λ x. x.0) (rw (insert, f) at e))
    | inl f ↦ elim (Bool-cases (has_duplicates (map (λ q. q.key) planned))) [
      | inl g ↦ cc (ap (λ x. x.0) (rw (insert, f, g) at e))
      | inr g ↦ commit-IsKept s t p rows (rw (insert, f, g) at e)
    ]
  ]

  create-IsKept :
      (before s t : Store) (p : Pipeline) (rows : List Job)
      → create new planned id ids now before s ≡ (created p rows, t)
      → IsKept new p t.pipelines
  unfolding create
  create-IsKept before s t p rows e = elim (Option-cases (find_existing new before)) [
    | inr (found, f) ↦ cc (ap (λ x. x.0) (rw (create, f) at e))
    | inl f ↦ insert-IsKept s t p rows (rw (create, f) at e)
  ]

  create-keeps :
      (before s : Store) (p : Pipeline)
      → In p s.pipelines
      → In p (create new planned id ids now before s).1.pipelines
  unfolding create insert commit
  create-keeps before s p i = elim (Option-cases (find_existing new before)) [
    | inr (found, f) ↦ rw (create, f) i
    | inl f ↦ elim (Option-cases (find_existing new s)) [
      | inr (winner, g) ↦ rw (create, f, insert, g) i
      | inl g ↦ elim (Bool-cases (has_duplicates (map (λ q. q.key) planned))) [
        | inl h ↦ rw (create, f, insert, g, h) i
        | inr h ↦ rw (create, f, insert, g, h) (inr i)
      ]
    ]
  ]

Creates-keeps : {s t : Store} (p : Pipeline) → Creates s t → In p s.pipelines → In p t.pipelines
Creates-keeps p start i = i
Creates-keeps p (more {t} c new planned id ids now before) i =
    create-keeps new planned id ids now before t p (Creates-keeps p c i)

-- Where no two rows are of one delivery and workflow, the row of one is the one that is found.
found :
    (d : Text) (w : ℕ) (p : Pipeline) (ps : List Pipeline)
    → AllApart ps
    → In p ps
    → is_of d w p ≡ true
    → find (is_of d w) ps ≡ some p
found d w p [] v i e = absurd i
found d w p (q ∷ ps) (apart, v) (inl same) e = rw (← same, e) refl
found d w p (q ∷ ps) (apart, v) (inr i) e = elim (Bool-cases (is_of d w q)) [
  | inr miss ↦ rw miss (found d w p ps v i e)
  | inl hit ↦
      let (delivery, workflow) = is_of-columns d w q hit in
      cc (sym e ∙ (All-In _ ps p i apart).deliveries d delivery w workflow)
]

find_existing-kept :
    (new : NewPipeline) (d : Text) (p : Pipeline) (u : Store)
    → new.webhook_delivery_id ≡ some d
    → IsNumbered u
    → IsKept new p u.pipelines
    → find_existing new u ≡ some p
unfolding find_existing
find_existing-kept new d p u e v (i, delivery, workflow) = rw e (
    found d new.workflow_id p u.pipelines v.apart i
      (rw (delivery ∙ e, workflow, text_eq_refl d, ==_refl new.workflow_id) refl))

-- After a delivery has, in numbered tables, made its pipeline for a workflow, and any others have
-- been created, the delivery tried again for that workflow is answered with that pipeline and changes
-- nothing, whether its first query sees the row or, racing, sees a store without it.
pub create_again :
    (new : NewPipeline) (planned planned' : List PlannedJob) (id id' : ℕ) (ids ids' : ℕ → ℕ)
    (now now' : ℕ) (before before' s t u : Store) (d : Text) (p : Pipeline) (rows : List Job)
    → IsNumbered s
    → new.webhook_delivery_id ≡ some d
    → create new planned id ids now before s ≡ (created p rows, t)
    → Creates t u
    → (before' ≡ u) ⊎ (find_existing new before' ≡ none)
    → create new planned' id' ids' now' before' u ≡ (existing p, u)
unfolding create insert
create_again new planned planned' id id' ids ids' now now' before before' s t u d p rows v e made
      later seen =
    let (i, delivery, workflow) = create-IsKept new planned id ids now before s t p rows made in
    let v' : IsNumbered t =
      subst IsNumbered (ap (λ x. x.1) made) (create-IsNumbered new planned id ids now before s v) in
    let kept =
      find_existing-kept new d p u e (Creates-IsNumbered later v')
        (Creates-keeps p later i, delivery, workflow) in
    elim seen [
      | inl same ↦ rw (create, same, kept) refl
      | inr stale ↦ rw (create, stale, insert, kept) refl
    ]
