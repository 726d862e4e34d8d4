-- ===== src/Scheduler/Given.antt =====
-- `assign_eligible` (backend/src/services/scheduler.rs) as a whole: which runner a job is on afterwards.
use overup.Prelude.{
  ℕ, zero, suc, ◌≡◌, refl, sym, subst, ap, Bool, true, ◌||◌, List, [], ◌∷◌, map, All, In, arith,
  Bool-cases, ◌⊎◌, inl, inr, ==_refl, filter, take, is_empty, ltb,
}
use overup.Db.Rows.{Job, Runner, is_in_progress}
use overup.Db.Jobs.{member}
use overup.Db.Runners.{find_idle_by_ids}
use overup.Db.Tables.{Tables}
use overup.World.{Effect, World}
use overup.Handlers.Dependents.{UniqueIds}
use overup.Scheduler.{
  insert_by_queued, order_by_queued, find_eligible, assign_batch, DispatchOutcome, assign_eligible,
}
use overup.Scheduler.Placed.{Placed, Row, assign-Rows}

-- The ids of the jobs in progress.
abbrev pub started : List Job → List ℕ
started jobs = map (λ (j : Job). j.id) (filter (λ j. is_in_progress j.status) jobs)

first_started :
    (x : Job) (jobs : List Job)
    → is_in_progress x.status ≡ true
    → member x.id (started (x ∷ jobs)) ≡ true
first_started x jobs h = rw (h, ==_refl x.id) refl

member-started :
    (jobs : List Job) (j : Job)
    → In j jobs
    → is_in_progress j.status ≡ true
    → member j.id (started jobs) ≡ true
member-started [] j i h = absurd i
member-started (x ∷ jobs) j (inl e) h =
    subst (λ (k : Job). member k.id (started (x ∷ jobs)) ≡ true) (sym e)
      (first_started x jobs (subst (λ (k : Job). is_in_progress k.status ≡ true) e h))
member-started (x ∷ jobs) j (inr i) h = ground (arith, member-started jobs j i h)

In-insert : (j x : Job) (jobs : List Job) → In j (insert_by_queued x jobs) → (j ≡ x) ⊎ In j jobs
In-insert j x [] i = i
In-insert j x (y ∷ jobs) i = elim (Bool-cases (ltb x.queued_at y.queued_at)) [
  | inl h ↦ rw h at i
  | inr h ↦ elim (rw h at i) [
    | inl e ↦ inr (inl e)
    | inr r ↦ elim (In-insert j x jobs r) [ inl e ↦ inl e | inr k ↦ inr (inr k) ]
  ]
]

In-order : (j : Job) (jobs : List Job) → In j (order_by_queued jobs) → In j jobs
In-order j [] i = i
In-order j (x ∷ jobs) i = elim (In-insert j x (order_by_queued jobs) i) [
  | inl e ↦ inl e
  | inr r ↦ inr (In-order j jobs r)
]

In-take : (n : ℕ) (j : Job) (jobs : List Job) → In j (take n jobs) → In j jobs
In-take zero j jobs i = absurd i
In-take (suc n) j [] i = i
In-take (suc n) j (x ∷ jobs) (inl e) = inl e
In-take (suc n) j (x ∷ jobs) (inr i) = inr (In-take n j jobs i)

In-filter : (f : Job → Bool) (j : Job) (jobs : List Job) → In j (filter f jobs) → In j jobs
In-filter f j [] i = i
In-filter f j (x ∷ jobs) i = elim (Bool-cases (f x)) [
  | inl h ↦ elim (rw h at i) [ inl e ↦ inl e | inr r ↦ inr (In-filter f j jobs r) ]
  | inr h ↦ inr (In-filter f j jobs (rw h at i))
]

find_eligible-In : (n : ℕ) (db : Tables) (j : Job) → In j (find_eligible n db) → In j db.jobs
find_eligible-In n db j i = In-filter _ j db.jobs (In-order j _ (In-take n j _ i))

module _ (now : ℕ) (idle : List Runner) (db : Tables) (unique : UniqueIds db.jobs) where
  Row-start :
      (js : List Job)
      → ((j : Job) → In j js → In j db.jobs)
      → All (Row now (started db.jobs) idle (find_eligible assign_batch db)) js
  Row-start [] sub = tt
  Row-start (j ∷ js) sub =
      let here = sub j (inl refl) in
      let was = member-started db.jobs j here in
      (
        (
          λ e. inl (was (rw e refl)),
          λ k i e.
              ap (λ (x : Job). x.runs_on)
                (unique j k here (find_eligible-In assign_batch db k i) e),
        ),
        Row-start js (λ k i. sub k (inr i)),
      )

Rows-Placed :
    (now : ℕ) (before : List ℕ) (idle : List Runner) (eligible js : List Job)
    → All (Row now before idle eligible) js
    → All (Placed before idle) js
Rows-Placed now before idle eligible [] h = tt
Rows-Placed now before idle eligible (j ∷ js) ((p, s), h) =
    (p, Rows-Placed now before idle eligible js h)

-- Whatever the outcomes of the dispatches, a job that is in progress after `assign_eligible` was so
-- before, or is on a connected runner that was idle, not draining and not revoked, and that offers
-- every label that the job wants.
pub assign_eligible-Placed :
    (now : ℕ) (dispatch : List Effect → Job → ℕ → DispatchOutcome) (connected : List ℕ) (w : World)
    → UniqueIds w.tables.jobs
    → All
        (Placed (started w.tables.jobs) (find_idle_by_ids connected w.tables.runners))
        (assign_eligible now dispatch connected w).tables.jobs
unfolding assign_eligible
assign_eligible-Placed now dispatch connected w unique =
    let idle = find_idle_by_ids connected w.tables.runners in
    let eligible = find_eligible assign_batch w.tables in
    let start = Row-start now idle w.tables unique w.tables.jobs (λ j i. i) in
    elim (Bool-cases (is_empty connected || is_empty idle || is_empty eligible)) [
      | inl skip ↦ rw skip (Rows-Placed now (started w.tables.jobs) idle eligible _ start)
      | inr go ↦ rw go (
          Rows-Placed now (started w.tables.jobs) idle eligible _ (
            assign-Rows now (started w.tables.jobs) idle eligible dispatch eligible [] w (λ j i. i)
              start))
    ]
