-- ===== src/Run/Conclusion.antt =====
-- `compute_conclusion` (backend/src/services/pipeline_run.rs): when a pipeline has a conclusion, and which.
use mathlib.Core.List.{Perm, Permᴰ, cons≢nil}
use mathlib.Core.Logic.{∥∥₁_elim}
use mathlib.Core.Bool.{true≢false}
use overup.Prelude.{
  Bool, true, false, not, ◌&&◌, ◌||◌, Option, none, some, List, [], ◌∷◌, ◌≡◌, ◌≢◌, refl, ◌↔◌, arith,
  any, is_empty, if◌then◌else◌, All, Exists, any_iff, ap, ap₂, ◌∙◌,
}
use overup.Db.Jobs.{is_success}
use overup.Db.Rows.{
  completed, success, failure, cancelled, timed_out, JobConclusion, Verdict, is_completed,
}
use overup.Run.{JobState, has, is_failure, is_cancelled, is_timed_out, compute_conclusion}

or_swap : (a a' b b' r : Bool) → a ≡ b' → b ≡ a' → (a || (b || r)) ≡ (a' || (b' || r))
or_swap a a' b b' r h k = ground arith

module _ (f : JobState → Bool) where
  any-Permᴰ : {xs ys : List JobState} → Permᴰ xs ys → any f xs ≡ any f ys
  any-Permᴰ Permᴰ.nil = refl
  any-Permᴰ (Permᴰ.cons e p) = ap₂ (λ a b. f a || b) e (any-Permᴰ p)
  any-Permᴰ (Permᴰ.swap {a} {b} {a'} {b'} {l} e e') =
      or_swap (f a) (f a') (f b) (f b') (any f l) (ap f e) (ap f e')
  any-Permᴰ (Permᴰ.trans p q) = any-Permᴰ p ∙ any-Permᴰ q

is_empty-any : (xs : List JobState) → is_empty xs ≡ not (any (λ _. true) xs)
is_empty-any [] = refl
is_empty-any (x ∷ xs) = refl

compute_conclusion-Permᴰ :
    (xs ys : List JobState) → Permᴰ xs ys → compute_conclusion xs ≡ compute_conclusion ys
unfolding compute_conclusion
compute_conclusion-Permᴰ xs ys p =
    rw
      (
        is_empty-any xs,
        is_empty-any ys,
        any-Permᴰ (λ _. true) p,
        any-Permᴰ (λ s. not (is_completed s.0)) p,
        any-Permᴰ (λ s. is_cancelled s.1) p,
        any-Permᴰ (λ s. is_timed_out s.1) p,
        any-Permᴰ (λ s. is_failure s.1) p,
        any-Permᴰ (λ s. is_success s.1) p,
      )
      refl

verdict_set : IsSet (Option Verdict)
verdict_set = hlevel

-- The conclusion does not depend on the order of the rows, which the query leaves open.
pub compute_conclusion-perm :
    (xs ys : List JobState) → Perm xs ys → compute_conclusion xs ≡ compute_conclusion ys
compute_conclusion-perm xs ys p = ∥∥₁_elim p (verdict_set _ _) (compute_conclusion-Permᴰ xs ys)

abbrev pub Has : JobConclusion → List JobState → Type 0
Has c = Exists (λ s. s.1 ≡ some c)

-- Every job is completed, and there is one.
abbrev pub Finished : List JobState → Type 0
Finished statuses = (statuses ≢ []) × All (λ s. s.0 ≡ completed) statuses

test_cancelled : (o : Option JobConclusion) → (is_cancelled o ≡ true) ↔ (o ≡ some cancelled)
test_cancelled o = ground arith

test_timed_out : (o : Option JobConclusion) → (is_timed_out o ≡ true) ↔ (o ≡ some timed_out)
test_timed_out o = ground arith

test_failure : (o : Option JobConclusion) → (is_failure o ≡ true) ↔ (o ≡ some failure)
test_failure o = ground arith

test_success : (o : Option JobConclusion) → (is_success o ≡ true) ↔ (o ≡ some success)
test_success o = ground arith

has_iff :
    (test : Option JobConclusion → Bool) (c : JobConclusion)
    → ((o : Option JobConclusion) → (test o ≡ true) ↔ (o ≡ some c))
    → (ss : List JobState) → (has test ss ≡ true) ↔ Has c ss
has_iff test c h ss = any_iff (λ (s : JobState). test s.1) (λ s. s.1 ≡ some c) (λ s. h s.1) ss

-- The tests of `compute_conclusion`, as one function of their results.
abbrev pick : Bool → Bool → Bool → Bool → Bool → Option Verdict
pick live c t f s =
    if live
    then none
    else some (
        if c
        then Verdict.cancelled
        else if t
        then Verdict.timed_out
        else if f && s
        then Verdict.partial
        else if f
        then Verdict.failure
        else Verdict.success)

abbrev is_live : List JobState → Bool
is_live ss = is_empty ss || any (λ s. not (is_completed s.0)) ss

-- Which conclusions of the jobs stand behind a conclusion of the pipeline: whether one is cancelled,
-- timed out, failed and successful.
abbrev pub Picked : Verdict → Type 0 → Type 0 → Type 0 → Type 0 → Type 0
Picked Verdict.cancelled C T F S = C
Picked Verdict.timed_out C T F S = ¬ C × T
Picked Verdict.partial C T F S = ¬ C × (¬ T) × F × S
Picked Verdict.failure C T F S = ¬ C × (¬ T) × F × (¬ S)
Picked Verdict.success C T F S = ¬ C × (¬ T) × (¬ F)

abbrev pub Explains : Verdict → List JobState → Type 0
Explains v ss = Picked v (Has cancelled ss) (Has timed_out ss) (Has failure ss) (Has success ss)

pick_iff :
    {L C T F S : Type 0} (l c t f s : Bool) (v : Verdict)
    → (l ≡ false) ↔ L
    → (c ≡ true) ↔ C
    → (t ≡ true) ↔ T
    → (f ≡ true) ↔ F
    → (s ≡ true) ↔ S
    → (pick l c t f s ≡ some v) ↔ (L × Picked v C T F S)
pick_iff l c t f s Verdict.cancelled hl hc ht hf hs = ground arith
pick_iff l c t f s Verdict.timed_out hl hc ht hf hs = ground arith
pick_iff l c t f s Verdict.partial hl hc ht hf hs = ground arith
pick_iff l c t f s Verdict.failure hl hc ht hf hs = ground arith
pick_iff l c t f s Verdict.success hl hc ht hf hs = ground arith

All-completed_iff :
    (ss : List JobState)
    → (any (λ (s : JobState). not (is_completed s.0)) ss ≡ false)
      ↔ All (λ (s : JobState). s.0 ≡ completed) ss
All-completed_iff [] = (λ _. tt, λ _. refl)
All-completed_iff ((st, o) ∷ ss) = ground (arith, All-completed_iff ss)

is_live_iff : (ss : List JobState) → (is_live ss ≡ false) ↔ Finished ss
is_live_iff [] = (λ e. absurd (true≢false e), λ f. absurd (f.0 refl))
is_live_iff (s ∷ ss) =
    let (to, from) = All-completed_iff (s ∷ ss) in
    (λ e. ((λ e'. absurd (cons≢nil e')), to e), λ f. from f.1)

compute_conclusion-pick :
    (ss : List JobState)
    → compute_conclusion ss
      ≡ pick
          (is_live ss)
          (has is_cancelled ss)
          (has is_timed_out ss)
          (has is_failure ss)
          (has is_success ss)
unfolding compute_conclusion
compute_conclusion-pick ss = refl

-- A pipeline has the conclusion `v` exactly when it has jobs, all of them completed, and the
-- conclusions of the jobs explain `v`: one cancelled job cancels it; else one timed-out job times it
-- out; else failures beside successes are partial, failures alone a failure, and no failure a success.
pub compute_conclusion_iff :
    (ss : List JobState) (v : Verdict)
    → (compute_conclusion ss ≡ some v) ↔ (Finished ss × Explains v ss)
compute_conclusion_iff ss v = rw (compute_conclusion-pick ss) (
    pick_iff (is_live ss) (has is_cancelled ss) (has is_timed_out ss) (has is_failure ss)
      (has is_success ss) v (is_live_iff ss) (has_iff is_cancelled cancelled test_cancelled ss)
      (has_iff is_timed_out timed_out test_timed_out ss)
      (has_iff is_failure failure test_failure ss) (has_iff is_success success test_success ss))

-- A pipeline whose jobs are all completed has a conclusion.
pub Finished-concludes :
    (ss : List JobState) → Finished ss → (v : Verdict) × (compute_conclusion ss ≡ some v)
Finished-concludes ss f = (
  _,
  compute_conclusion-pick ss
      ∙ ap
          (λ l.
            pick l (has is_cancelled ss) (has is_timed_out ss) (has is_failure ss)
              (has is_success ss))
          ((is_live_iff ss).1 f),
)
