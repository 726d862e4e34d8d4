-- ===== src/Workflow/Needs/Valid.antt =====
-- What `validate_needs` (backend/src/services/workflow_parse.rs) accepts.
use overup.Prelude.{
  ◌≡◌, ◌↔◌, refl, sym, subst, inl, inr, List, [], ◌∷◌, ◌++◌, map, In, All, Exists, Text,
}
use overup.Workflow.{ParsedJob}
use overup.Workflow.Needs.{
  Edges, successors, link_jobs, color_of, Outcome, out_of_fuel, circular, searched, search_jobs,
  cycle_diagnostics, validate_needs,
}
use overup.Workflow.Needs.Acyclic.{edge, IsAcyclic, Leads-map, Leads-first, IsGrounded-acyclic}
use overup.Workflow.Needs.Invariant.{IsSound}
use overup.Workflow.Needs.Jobs.{JobsSay, search_jobs-Say}
use overup.Workflow.Needs.Ends.{HasEnded, search_jobs-HasEnded}
use overup.Workflow.Needs.Linked.{link_jobs-IsLinked, IsResolved, Added}

-- A job with the key `u` names `v` among its needs.
abbrev pub Needs : List ParsedJob → Text → Text → Type 0
Needs jobs u v = Exists (λ j. (j.key ≡ u) × In v j.needs) jobs

abbrev pub keys_of : List ParsedJob → List Text
keys_of jobs = map (λ j. j.key) jobs

-- Each reference names a job.
abbrev pub AllKnown : List ParsedJob → Type 0
AllKnown jobs = (u v : Text) → Needs jobs u v → In v (keys_of jobs)

Needs-source : (jobs : List ParsedJob) (u v : Text) → Needs jobs u v → In u (keys_of jobs)
Needs-source [] u v n = absurd n
Needs-source (j ∷ jobs) u v (inl (same, i)) = inl (sym same)
Needs-source (j ∷ jobs) u v (inr later) = inr (Needs-source jobs u v later)

In-Added :
    (ids needs : List Text) (key u v : Text)
    → key ≡ u
    → In v needs
    → All (IsResolved ids key) needs
    → Added ids key needs u v
In-Added ids [] key u v same i r = absurd i
In-Added ids (n ∷ needs) key u v same (inl e) (r, rs) = inl (same, e, r)
In-Added ids (n ∷ needs) key u v same (inr i) (r, rs) = inr (In-Added ids needs key u v same i rs)

Added-In :
    (ids needs : List Text) (key u v : Text)
    → Added ids key needs u v
    → (key ≡ u) × In v needs × In v ids
Added-In ids [] key u v a = absurd a
Added-In ids (n ∷ needs) key u v (inl (same, e, r)) =
    (same, inl e, subst (λ x. In x ids) (sym e) r.1)
Added-In ids (n ∷ needs) key u v (inr a) =
    let (same, i, known) = Added-In ids needs key u v a in (same, inr i, known)

abbrev AllAdded : List Text → List ParsedJob → Text → Text → Type 0
AllAdded ids jobs u v = Exists (λ j. Added ids j.key j.needs u v) jobs

abbrev AllResolved : List Text → List ParsedJob → Type 0
AllResolved ids jobs = All (λ j. All (IsResolved ids j.key) j.needs) jobs

Needs-AllAdded :
    (ids : List Text) (jobs : List ParsedJob) (u v : Text)
    → AllResolved ids jobs
    → Needs jobs u v
    → AllAdded ids jobs u v
Needs-AllAdded ids [] u v r n = absurd n
Needs-AllAdded ids (j ∷ jobs) u v (r, rs) (inl (same, i)) =
    inl (In-Added ids j.needs j.key u v same i r)
Needs-AllAdded ids (j ∷ jobs) u v (r, rs) (inr n) = inr (Needs-AllAdded ids jobs u v rs n)

AllAdded-Needs :
    (ids : List Text) (jobs : List ParsedJob) (u v : Text)
    → AllAdded ids jobs u v
    → Needs jobs u v × In v ids
AllAdded-Needs ids [] u v a = absurd a
AllAdded-Needs ids (j ∷ jobs) u v (inl a) =
    let (same, i, known) = Added-In ids j.needs j.key u v a in (inl (same, i), known)
AllAdded-Needs ids (j ∷ jobs) u v (inr a) =
    let (n, known) = AllAdded-Needs ids jobs u v a in (inr n, known)

-- Where all references are to other jobs, each is resolved.
all_needs :
    (ids : List Text) (key : Text) (needs : List Text)
    → ((v : Text) → In v needs → IsResolved ids key v)
    → All (IsResolved ids key) needs
all_needs ids key [] h = tt
all_needs ids key (n ∷ needs) h = (h n (inl refl), all_needs ids key needs (λ v i. h v (inr i)))

all_jobs :
    (ids : List Text) (jobs : List ParsedJob)
    → ((u v : Text) → Needs jobs u v → IsResolved ids u v)
    → AllResolved ids jobs
all_jobs ids [] h = tt
all_jobs ids (j ∷ jobs) h = (
  all_needs ids j.key j.needs (λ v i. h j.key v (inl (refl, i))),
  all_jobs ids jobs (λ u v n. h u v (inr n)),
)

resolved-known :
    (ids : List Text) (jobs : List ParsedJob) (u v : Text)
    → AllResolved ids jobs
    → Needs jobs u v
    → In v ids
resolved-known ids jobs u v r n = (AllAdded-Needs ids jobs u v (Needs-AllAdded ids jobs u v r n)).1

append-nil_split : {A : Type 0} (xs ys : List A) → xs ++ ys ≡ [] → (xs ≡ []) × (ys ≡ [])
append-nil_split [] ys e = (refl, e)
append-nil_split (x ∷ xs) ys e = cc e

All-self :
    (keys more : List Text) → ((v : Text) → In v keys → In v more) → All (λ k. In k more) keys
All-self [] more h = tt
All-self (k ∷ keys) more h = (h k (inl refl), All-self keys more (λ v i. h v (inr i)))

module _ (jobs : List ParsedJob) where
  abbrev ids : List Text
  ids = keys_of jobs

  abbrev edges : Edges
  edges = (link_jobs ids jobs (record { edges = []; pushed = [] })).edges

  edges_iff : (u v : Text) → In v (successors edges u) ↔ AllAdded ids jobs u v
  unfolding successors
  edges_iff u v =
      let linked =
        (link_jobs-IsLinked ids jobs (record { edges = []; pushed = [] })).edges_iff u v in
      (λ i. elim (linked.0 i) [ inl n ↦ absurd n | inr a ↦ a ], λ a. linked.1 (inr a))

  pushed_iff :
      ((link_jobs ids jobs (record { edges = []; pushed = [] })).pushed ≡ []) ↔ AllResolved ids jobs
  pushed_iff =
      let linked = (link_jobs-IsLinked ids jobs (record { edges = []; pushed = [] })).pushed_iff in
      (λ e. (linked.0 e).1, λ r. linked.1 (refl, r))

  -- When the search says nothing, there is no cycle; when there is none, it says nothing.
  cycle_iff :
      AllResolved ids jobs
      → (out : Outcome) → HasEnded out
      → JobsSay edges ids [] ids out
      → (cycle_diagnostics out ≡ []) ↔ IsAcyclic (Needs jobs)
  cycle_iff r out_of_fuel ended s = absurd ended
  cycle_iff r (circular n) ended s = (
    λ e. cc e,
    λ a.
        absurd (a n (Leads-map (λ u v i. (AllAdded-Needs ids jobs u v ((edges_iff u v).0 i)).0) s)),
  )
  cycle_iff r (searched colors) ended (s, done) = (
    λ _ u l.
        let (v, n, _) = Leads-first l in
        IsGrounded-acyclic (s.ground u (done u (Needs-source jobs u v n)))
          (Leads-map (λ x y m. (edges_iff x y).1 (Needs-AllAdded ids jobs x y r m)) l),
    λ _. refl,
  )

  nothing_colored : IsSound edges [] [] []
  unfolding color_of
  nothing_colored = record {
    path = tt;
    marked = λ u e. cc e;
    covered = λ v i. absurd i;
    ground = λ u e. cc e;
  }

  ended : HasEnded (search_jobs edges ids ids [])
  ended =
      search_jobs-HasEnded edges ids
        (λ u v i. (AllAdded-Needs ids jobs u v ((edges_iff u v).0 i)).1) ids []
        (All-self ids ids (λ v i. i))

  -- `validate_needs` reports nothing exactly when each name among the needs of a job is the key of a job
  -- and no job leads back to itself through the needs.
  pub validate_needs_iff : (validate_needs jobs ≡ []) ↔ (AllKnown jobs × IsAcyclic (Needs jobs))
  unfolding validate_needs
  validate_needs_iff =
      let said = search_jobs-Say edges ids ids [] [] nothing_colored in
      (
        λ e.
            let (no_link, no_cycle) = append-nil_split _ _ e in
            let r = pushed_iff.0 no_link in
            (λ u v n. resolved-known ids jobs u v r n, (cycle_iff r _ ended said).0 no_cycle),
        λ (known, acyclic).
            let r = all_jobs ids jobs (λ u v n.
              (λ same. acyclic u (edge (subst (Needs jobs u) (sym same) n)), known u v n)) in
            rw (pushed_iff.1 r) ((cycle_iff r _ ended said).1 acyclic),
      )
