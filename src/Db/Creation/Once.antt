-- ===== src/Db/Creation/Once.antt =====
-- Numbers of pipelines, and retried deliveries (backend/src/db/pipelines.rs, `create`).
use overup.Prelude.{
  All-map, All_by_In, All-append, find-none, ℕ, suc, ◌+◌, ◌≤◌, ◌<◌, ◌≡◌, ◌≢◌, inl, inr, refl, ap,
  true, false, Option, none, some, List, [], ◌∷◌, ◌==◌, ==_iff, ==_refl, All, All-In, map, arith,
  Bool-cases, Option-cases, &&_iff, Text, text_eq_iff,
}
use overup.Db.Rows.{Pipeline}
use overup.Db.Jobs.Valid.{IsValid}
use overup.Plan.{PlannedJob}
use overup.Db.Creation.{
  NewPipeline, Store, is_delivery, is_workflow, is_of, find_existing, next_of, number_of, bump,
  new_row, job_rows, has_duplicates, commit, insert, create,
}

-- The number has been given out by the counter of the repository.
abbrev pub IsBelow : Option ℕ → ℕ → Type 0
IsBelow none n = ⊥
IsBelow (some next) n = (1 ≤ n) × (n < next)

-- Of one repository with different numbers, or of two; and not of one delivery for one workflow.
pub record AreApart (p q : Pipeline) : Type 0 where
  pub numbers : p.repository_id ≡ q.repository_id → p.number ≢ q.number
  pub deliveries :
      (d : Text)
      → p.webhook_delivery_id ≡ some d
      → (w : ℕ) → p.workflow_id ≡ some w
      → is_of d w q ≡ false

abbrev pub AllApart : List Pipeline → Type 0
AllApart [] = Unit
AllApart (p ∷ ps) = All (AreApart p) ps × AllApart ps

pub record IsNumbered (s : Store) : Type 0 where
  pub given : All (λ (p : Pipeline). IsBelow (s.counters p.repository_id) p.number) s.pipelines
  pub apart : AllApart s.pipelines
  pub positive : (r n : ℕ) → s.counters r ≡ some n → 1 ≤ n
  pub jobs : All IsValid s.jobs

-- Any number of creations, each of which may have looked for its delivery in any store.
pub data Creates (s : Store) : Store → Type 0 where
  start : Creates s s
  more :
      {t : Store}
      → Creates s t
      → (new : NewPipeline) (planned : List PlannedJob) (id : ℕ) (ids : ℕ → ℕ) (now : ℕ)
        (before : Store)
      → Creates s (create new planned id ids now before t).1

job_rows-IsValid :
    (new : NewPipeline) (ids : ℕ → ℕ) (pipeline now : ℕ) (planned : List PlannedJob)
    → All IsValid (job_rows new ids pipeline now planned)
unfolding job_rows
job_rows-IsValid new ids pipeline now [] = tt
job_rows-IsValid new ids pipeline now (p ∷ planned) = (
  record {
    concluded = λ e. cc e;
    only_concluded = λ e. cc e;
    waits = λ _. (refl, refl, refl);
    placed = λ e. cc e;
    over = λ e. cc e;
    first_attempt = omega arith;
    last_attempt = omega arith;
  },
  job_rows-IsValid new (λ i. ids (suc i)) pipeline now planned,
)

given_here :
    (o : Option ℕ) → ((n : ℕ) → o ≡ some n → 1 ≤ n) → IsBelow (some (next_of o)) (number_of o)
given_here none h = (omega arith, omega arith)
given_here (some n) h = (h n refl, omega arith)

given-next_of : (o : Option ℕ) (n : ℕ) → IsBelow o n → IsBelow (some (next_of o)) n
given-next_of none n k = absurd k
given-next_of (some m) n (k, l) = (k, omega (arith, l))

-- What was given out stays below the counter.
given-bump :
    (counters : ℕ → Option ℕ) (r repository n : ℕ)
    → IsBelow (counters repository) n
    → IsBelow (bump r counters repository) n
given-bump counters r repository n h = elim (Bool-cases (repository == r)) [
  | inr other ↦ rw (bump, other) h
  | inl same ↦
      (let here : IsBelow (counters r) n = rw ((==_iff repository r).0 same) at h in
        rw (bump, same) (given-next_of (counters r) n here))
]

number-new : (o : Option ℕ) (n : ℕ) → IsBelow o n → number_of o ≢ n
number-new none n h e = absurd h
number-new (some m) n (_, h) e = omega (arith, h, e)

next_of-positive : (o : Option ℕ) (n : ℕ) → some (next_of o) ≡ some n → 1 ≤ n
next_of-positive none n f = (let g : 2 ≡ n = cc f in omega (arith, g))
next_of-positive (some m) n f = (let g : m + 1 ≡ n = cc f in omega (arith, g))

positive-bump :
    (counters : ℕ → Option ℕ) (repository : ℕ)
    → ((r n : ℕ) → counters r ≡ some n → 1 ≤ n)
    → (r n : ℕ) → bump repository counters r ≡ some n
    → 1 ≤ n
positive-bump counters repository h r n e = elim (Bool-cases (r == repository)) [
  | inr other ↦ h r n (rw (bump, other) at e)
  | inl same ↦ next_of-positive (counters repository) n (rw (bump, same) at e)
]

fresh-deliveries :
    (new : NewPipeline) (s : Store) (d : Text)
    → find_existing new s ≡ none
    → new.webhook_delivery_id ≡ some d
    → All (λ (q : Pipeline). is_of d new.workflow_id q ≡ false) s.pipelines
unfolding find_existing
fresh-deliveries new s d e f = find-none (is_of d new.workflow_id) s.pipelines (rw f at e)

delivery_is : (d : Text) (o : Option Text) → is_delivery d o ≡ true → o ≡ some d
delivery_is d none e = cc e
delivery_is d (some x) e = ap some ((text_eq_iff x d).0 e)

workflow_is : (w : ℕ) (o : Option ℕ) → is_workflow w o ≡ true → o ≡ some w
workflow_is w none e = cc e
workflow_is w (some x) e = ap some ((==_iff x w).0 e)

pub is_of-columns :
    (d : Text) (w : ℕ) (p : Pipeline)
    → is_of d w p ≡ true
    → (p.webhook_delivery_id ≡ some d) × (p.workflow_id ≡ some w)
is_of-columns d w p e =
    let (delivery, workflow) =
      (&&_iff (is_delivery d p.webhook_delivery_id) (is_workflow w p.workflow_id)).0 e in
    (delivery_is d p.webhook_delivery_id delivery, workflow_is w p.workflow_id workflow)

new-AreApart :
    (new : NewPipeline) (s : Store) (id now : ℕ)
    → find_existing new s ≡ none
    → IsNumbered s
    → All (AreApart (new_row new id (number_of (s.counters new.repository_id)) now)) s.pipelines
new-AreApart new s id now e v = All_by_In s.pipelines (λ q i. record {
  numbers = λ same f.
      number-new (s.counters new.repository_id) q.number
        (rw same (All-In _ s.pipelines q i v.given)) f;
  deliveries = λ d f w g.
      let w_same : new.workflow_id ≡ w = cc g in
      rw (← w_same) (All-In _ s.pipelines q i (fresh-deliveries new s d e f));
})

commit-IsNumbered :
    (new : NewPipeline) (planned : List PlannedJob) (id : ℕ) (ids : ℕ → ℕ) (now : ℕ) (s : Store)
    → find_existing new s ≡ none
    → IsNumbered s
    → IsNumbered (commit new planned id ids now s).1
unfolding commit
commit-IsNumbered new planned id ids now s e v = record {
  given = (
    rw (bump, ==_refl new.repository_id)
        (given_here (s.counters new.repository_id) (v.positive new.repository_id)),
    All-map s.pipelines (λ q h. given-bump s.counters new.repository_id q.repository_id q.number h)
        v.given,
  );
  apart = (new-AreApart new s id now e v, v.apart);
  positive = positive-bump s.counters new.repository_id v.positive;
  jobs =
      All-append IsValid (job_rows new ids id now planned) s.jobs
        (job_rows-IsValid new ids id now planned) v.jobs;
}

insert-IsNumbered :
    (new : NewPipeline) (planned : List PlannedJob) (id : ℕ) (ids : ℕ → ℕ) (now : ℕ) (s : Store)
    → IsNumbered s
    → IsNumbered (insert new planned id ids now s).1
unfolding insert
insert-IsNumbered new planned id ids now s v = elim (Option-cases (find_existing new s)) [
  | inr (winner, e) ↦ rw (insert, e) v
  | inl e ↦
      rw (insert, e)
        (elim (Bool-cases (has_duplicates (map (λ p. p.key) planned))) [
          | inl f ↦ rw f v
          | inr f ↦ rw f (commit-IsNumbered new planned id ids now s e v)
        ])
]

pub create-IsNumbered :
    (new : NewPipeline) (planned : List PlannedJob) (id : ℕ) (ids : ℕ → ℕ) (now : ℕ)
    (before s : Store)
    → IsNumbered s
    → IsNumbered (create new planned id ids now before s).1
unfolding create
create-IsNumbered new planned id ids now before s v =
    elim (Option-cases (find_existing new before)) [
      | inr (found, e) ↦ rw (create, e) v
      | inl e ↦ rw (create, e) (insert-IsNumbered new planned id ids now s v)
    ]

-- From numbered tables with valid jobs, any sequence of creations, racing ones included, leads to such
-- tables: each number is from 1 to below the counter of its repository, no two pipelines of a repository
-- have one number, and no two are of one delivery and one workflow.
pub Creates-IsNumbered : {s t : Store} → Creates s t → IsNumbered s → IsNumbered t
Creates-IsNumbered start v = v
Creates-IsNumbered (more {t} c new planned id ids now before) v =
    create-IsNumbered new planned id ids now before t (Creates-IsNumbered c v)
