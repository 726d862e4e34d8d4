-- ===== src/Scheduler/Placed.antt =====
-- `assign_eligible` (backend/src/services/scheduler.rs) gives jobs only to free connected runners that offer
-- their labels.
use mathlib.Core.Option.{some_inj, none-ne-some}
use overup.Prelude.{
  ℕ, ◌≡◌, ◌≢◌, refl, sym, ◌∙◌, subst, Bool, true, Option, none, some, List, [], ◌∷◌, All, In,
  Exists, arith, Bool-cases, Option-cases, ◌⊎◌, inl, inr, &&_iff, find,
}
use overup.Db.Rows.{in_progress, failure, ErrorCategory, Job, Runner}
use overup.Db.Statements.{Update, apply, returning, first}
use overup.Db.Jobs
use overup.Db.Jobs.{member, is_eligible}
use overup.Db.Runners
use overup.Db.Runners.{find_idle_by_ids}
use overup.Db.Tables.{claim_for_runner}
use overup.World.{Effect, World, on_jobs, emit, clear_masks}
use overup.Handlers.{on_job_assigned, force_and_finish}
use overup.Handlers.Stable.{Stable, finish_found-keeps}
use overup.Handlers.Stopped.{All-execute}
use overup.Scheduler.{
  labels_satisfy, DispatchOutcome, sent, unreachable, checkout, secrets, workdir, failed, fits,
  conclude, after_claim, assign_to, assign_each,
}

-- The job is on a runner of the list that offers its labels.
abbrev pub Suits : Job → Runner → Type 0
Suits j r = (j.runner_id ≡ some r.id) × (labels_satisfy j.runs_on r.labels ≡ true)

-- A job in progress was so before, or is on a runner of the list that offers its labels.
abbrev pub Placed : List ℕ → List Runner → Job → Type 0
Placed before idle j = j.status ≡ in_progress → (member j.id before ≡ true) ⊎ Exists (Suits j) idle

In-Exists : (P : Runner → Type 0) (r : Runner) (rs : List Runner) → In r rs → P r → Exists P rs
In-Exists P r [] i p = absurd i
In-Exists P r (x ∷ rs) (inl e) p = inl (subst P e p)
In-Exists P r (x ∷ rs) (inr i) p = inr (In-Exists P r rs i p)

find-In :
    (f : Runner → Bool) (rs : List Runner) (r : Runner)
    → find f rs ≡ some r
    → In r rs × (f r ≡ true)
find-In f [] r e = absurd (none-ne-some r e)
find-In f (x ∷ rs) r e = elim (Bool-cases (f x)) [
  | inl h ↦
      (let same : x ≡ r = some_inj.0 (rw h at e) in
        (inl (sym same), subst (λ y. f y ≡ true) same h))
  | inr n ↦ (let (i, h) = find-In f rs r (rw n at e) in (inr i, h))
]

module _ (now : ℕ) (before : List ℕ) (idle : List Runner) (eligible : List Job) where
  abbrev pub Row : Job → Type 0
  Row a = Placed before idle a × ((j : Job) → In j eligible → a.id ≡ j.id → a.runs_on ≡ j.runs_on)

  abbrev pub Rows : World → Type 0
  Rows w = All Row w.tables.jobs

  -- A statement that leaves no job in progress.
  stops-Row :
      (u : Update Job)
      → ((a : Job) → (u.change a).status ≢ in_progress)
      → ((a : Job) → (u.change a).id ≡ a.id)
      → ((a : Job) → (u.change a).runs_on ≡ a.runs_on)
      → (a : Job) → Row a
      → Row (apply u a)
  stops-Row u stops ids labels a (p, s) = elim (Bool-cases (u.guard a)) [
    | inl g ↦ rw g ((λ e. absurd (stops a e)), λ j i e. labels a ∙ s j i (sym (ids a) ∙ e))
    | inr n ↦ rw n (p, s)
  ]

  claim-Row :
      (job : Job) (r : Runner)
      → In job eligible
      → In r idle
      → labels_satisfy job.runs_on r.labels ≡ true
      → (a : Job) → Row a
      → Row (apply (Jobs.claim_job now job.id r.id) a)
  claim-Row job r ij ir fit a (p, s) =
      elim (Bool-cases ((Jobs.claim_job now job.id r.id).guard a)) [
        | inl g ↦
            (let same : a.id ≡ job.id = ground arith in
              let labels = s job ij same in
              rw g (
                (λ e. inr (
                    In-Exists _ r idle ir
                      (refl, subst (λ l. labels_satisfy l r.labels ≡ true) (sym labels) fit))),
                s,
              ))
        | inr n ↦ rw n (p, s)
      ]

  Rows-Stable : Stable now Rows
  Rows-Stable = record {
    emits = λ e w h. h;
    skips = λ skip w h.
        All-execute Row Row (Jobs.mark_skipped now skip)
          (stops-Row (Jobs.mark_skipped now skip) (λ a e. ground arith) (λ a. refl) (λ a. refl))
          w.tables.jobs h;
    ends = λ i v w h. h;
    frees = λ i w h. h;
  }

  force-Rows :
      (i : ℕ) (cat : Option ErrorCategory) (w : World)
      → Rows w
      → Rows (force_and_finish now i failure cat w)
  force-Rows i cat w h =
      let u = Jobs.force_finish now i failure cat in
      finish_found-keeps now Rows Rows-Stable (first (returning u w.tables.jobs)) (on_jobs u w) (
        All-execute Row Row u (stops-Row u (λ a e. ground arith) (λ a. refl) (λ a. refl))
          w.tables.jobs h)

  unclaim-Rows : (i : ℕ) (w : World) → Rows w → Rows (on_jobs (Jobs.unclaim i) w)
  unclaim-Rows i w h =
      All-execute Row Row (Jobs.unclaim i)
        (stops-Row (Jobs.unclaim i) (λ a e. ground arith) (λ a. refl) (λ a. refl)) w.tables.jobs h

  module _ (dispatch : List Effect → Job → ℕ → DispatchOutcome) where
    conclude-Rows :
        (o : DispatchOutcome) (r : ℕ) (j : Job) (used : List ℕ) (w : World)
        → Rows w
        → Rows (conclude now dispatch o r j used w).1
    unfolding on_job_assigned
    conclude-Rows sent r j used w h = h
    conclude-Rows checkout r j used w h = force-Rows j.id _ _ h
    conclude-Rows secrets r j used w h = force-Rows j.id _ _ h
    conclude-Rows workdir r j used w h = force-Rows j.id _ _ h
    conclude-Rows unreachable r j used w h = unclaim-Rows j.id (emit (clear_masks j.id) w) h
    conclude-Rows failed r j used w h = unclaim-Rows j.id (emit (clear_masks j.id) w) h

    claim-Rows :
        (job : Job) (r : Runner) (used : List ℕ) (w : World)
        → In job eligible
        → In r idle
        → labels_satisfy job.runs_on r.labels ≡ true
        → Rows w
        → Rows (after_claim now dispatch r.id used w (claim_for_runner now job.id r.id w.tables)).1
    unfolding claim_for_runner
    claim-Rows job r used w ij ir fit h =
        elim (Option-cases (first (returning (Jobs.claim_job now job.id r.id) w.tables.jobs))) [
          | inl none_left ↦ rw none_left h
          | inr (claimed, a_job) ↦
              elim (Option-cases (first (returning (Runners.claim_runner r.id) w.tables.runners))) [
                | inl no_runner ↦ rw (a_job, no_runner) h
                | inr (x, a_runner) ↦
                    rw (a_job, a_runner)
                      (conclude-Rows (dispatch w.effects claimed r.id) r.id claimed used _ (
                        All-execute Row Row (Jobs.claim_job now job.id r.id)
                          (claim-Row job r ij ir fit) w.tables.jobs h))
              ]
        ]

    pub assign-Rows :
        (jobs : List Job) (used : List ℕ) (w : World)
        → ((j : Job) → In j jobs → In j eligible)
        → Rows w
        → Rows (assign_each now dispatch idle jobs used w)
    unfolding assign_each
    assign-Rows [] used w sub h = h
    assign-Rows (job ∷ jobs) used w sub h =
        let found = find (fits now dispatch job used) idle in
        assign-Rows jobs (assign_to now dispatch job used w found).0
          (assign_to now dispatch job used w found).1 (λ j i. sub j (inr i)) (one found refl)
      where
        one :
            (found : Option Runner)
            → find (fits now dispatch job used) idle ≡ found
            → Rows (assign_to now dispatch job used w found).1
        one none e = h
        one (some r) e =
            let (ir, fit) = find-In (fits now dispatch job used) idle r e in
            claim-Rows job r used w (sub job (inl refl)) ir ((&&_iff _ _).0 fit).1 h
