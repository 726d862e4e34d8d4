-- ===== src/Run/Skip.antt =====
-- `skip_dependents` (backend/src/services/pipeline_run.rs): which jobs it skips, as a relation.
use mathlib.Core.Bool.{false≢true}
use overup.Prelude.{
  All-In, ℕ, suc, Bool, true, false, not, ◌&&◌, some, List, [], ◌∷◌, any, length, Text, contains,
  ◌≡◌, refl, ◌↔◌, ◌⊎◌, inl, inr, arith, In, All, Bool-cases, &&_iff, sym, ap, subst,
}
use overup.Db.Rows.{Job, is_queued, is_completed}
use overup.Db.Jobs.{is_success}
use overup.Run.{Closure, has_doomed_need, doom, failed_keys, doomed_closure}
use overup.Run.Doomed.{
  contains_iff, is_open, close_keeps, Settled, close-Settled, doomed_closure_total,
}

-- A key that can no longer succeed: its job is completed without success, or is queued and needs such
-- a key.
pub data Doomed (jobs : List Job) : Text → Type 0 where
  failed : {k : Text} → In k (failed_keys jobs) → Doomed jobs k
  depends :
      {need : Text} (j : Job)
      → In j jobs
      → is_queued j.status ≡ true
      → In need j.needs
      → Doomed jobs need
      → Doomed jobs j.job_key

-- The job is queued and needs a doomed key.
pub record Skipped (jobs : List Job) (i : ℕ) : Type 0 where
  pub job : Job
  pub listed : In job jobs
  pub same_id : i ≡ job.id
  pub waiting : is_queued job.status ≡ true
  pub need : Text
  pub needed : In need job.needs
  pub hopeless : Doomed jobs need

-- A doomed key failed to begin with, or is that of a job to skip.
pub data Marked (jobs : List Job) (ids : List ℕ) (k : Text) : Type 0 where
  early : In k (failed_keys jobs) → Marked jobs ids k
  late :
      (j : Job)
      → In j jobs
      → is_queued j.status ≡ true
      → k ≡ j.job_key
      → In j.id ids
      → Marked jobs ids k

pub record Good (jobs : List Job) (c : Closure) : Type 0 where
  pub start : (k : Text) → In k (failed_keys jobs) → In k c.doomed
  pub keys : (k : Text) → In k c.doomed → Doomed jobs k
  pub skips : (i : ℕ) → In i c.to_skip → Skipped jobs i
  pub marks : (k : Text) → In k c.doomed → Marked jobs c.to_skip k

any-In : (f : Text → Bool) (ks : List Text) → any f ks ≡ true → (k : Text) × In k ks × (f k ≡ true)
any-In f [] e = absurd (false≢true e)
any-In f (k ∷ ks) e = elim (Bool-cases (f k)) [
  | inl hit ↦ (k, inl refl, hit)
  | inr miss ↦ (let (k', i, h) = any-In f ks (rw miss at e) in (k', inr i, h))
]

In-any : (f : Text → Bool) (ks : List Text) (k : Text) → In k ks → f k ≡ true → any f ks ≡ true
In-any f [] k i h = absurd i
In-any f (x ∷ ks) k (inl e) h = rw (sym (ap f e), h) refl
In-any f (x ∷ ks) k (inr i) h = ground (arith, In-any f ks k i h)

is_open-queued : (ks : List Text) (j : Job) → is_open ks j ≡ true → is_queued j.status ≡ true
is_open-queued ks j o = ground arith

later :
    {jobs : List Job} {ids : List ℕ} {i : ℕ} {k : Text}
    → Marked jobs ids k
    → Marked jobs (i ∷ ids) k
later (early e) = early e
later (late j l q e s) = late j l q e (inr s)

doom-Good :
    (jobs : List Job) (c : Closure) (j : Job)
    → In j jobs
    → is_open c.doomed j ≡ true
    → has_doomed_need c.doomed j ≡ true
    → Good jobs c
    → Good jobs (doom c j)
doom-Good jobs c j l o n g =
    let (need, i, d) = any-In (contains c.doomed) j.needs n in
    let hopeless = g.keys need ((contains_iff c.doomed need).0 d) in
    let q = is_open-queued c.doomed j o in
    record {
      start = λ k s. inr (g.start k s);
      keys = λ k. elim [
        | inl e ↦ subst (Doomed jobs) (sym e) (depends j l q i hopeless)
        | inr r ↦ g.keys k r
      ];
      skips = λ s. elim [
        | inl e ↦ record {
          job = j;
          listed = l;
          same_id = e;
          waiting = q;
          need = need;
          needed = i;
          hopeless = hopeless;
        }
        | inr r ↦ g.skips s r
      ];
      marks = λ k. elim [ inl e ↦ late j l q e (inl refl) | inr r ↦ later (g.marks k r) ];
    }

abbrev begin : List Job → Closure
begin jobs = record { doomed = failed_keys jobs; to_skip = []; changed = false }

doomed_closure-Good :
    (jobs : List Job) (out : Closure)
    → doomed_closure jobs ≡ some out
    → Good jobs out × All (Settled out) jobs
unfolding doomed_closure
doomed_closure-Good jobs out e = (
  close_keeps jobs (Good jobs) (doom-Good jobs)
      (λ c g. record { start = g.start; keys = g.keys; skips = g.skips; marks = g.marks })
      (suc (length jobs)) (begin jobs) out e
      (record {
        start = λ k s. s;
        keys = λ k i. failed i;
        skips = λ i s. absurd s;
        marks = λ k i. early i;
      }),
  close-Settled (suc (length jobs)) jobs (begin jobs) out e,
)

Settled-queued :
    (c : Closure) (j : Job)
    → Settled c j
    → is_queued j.status ≡ true
    → has_doomed_need c.doomed j ≡ true
    → contains c.doomed j.job_key ≡ true
Settled-queued c j s q n = ground arith

Doomed-In :
    (jobs : List Job) (out : Closure)
    → Good jobs out
    → All (Settled out) jobs
    → (k : Text) → Doomed jobs k
    → In k out.doomed
Doomed-In jobs out g s k (failed i) = g.start k i
Doomed-In jobs out g s k (depends {need} j l q i d) =
    let known = (contains_iff out.doomed need).1 (Doomed-In jobs out g s need d) in
    let n = In-any (contains out.doomed) j.needs need i known in
    (contains_iff out.doomed j.job_key).0
      (Settled-queued out j (All-In (Settled out) jobs j l s) q n)

-- The keys of the jobs of a pipeline are unique in the database.
abbrev pub UniqueKeys : List Job → Type 0
UniqueKeys jobs = (j j' : Job) → In j jobs → In j' jobs → j.job_key ≡ j'.job_key → j ≡ j'

failed_job :
    (jobs : List Job) (k : Text)
    → In k (failed_keys jobs)
    → (j : Job) × In j jobs × (k ≡ j.job_key) × (is_completed j.status ≡ true)
failed_job [] k i = absurd i
failed_job (x ∷ jobs) k i =
    elim (Bool-cases (is_completed x.status && not (is_success x.conclusion))) [
      | inl hit ↦ split hit (λ r. failed_job jobs k r) (rw hit at i)
      | inr miss ↦ deeper (failed_job jobs k (rw miss at i))
    ]
  where
    deeper :
        (j : Job) × In j jobs × (k ≡ j.job_key) × (is_completed j.status ≡ true)
        → (j : Job) × In j (x ∷ jobs) × (k ≡ j.job_key) × (is_completed j.status ≡ true)
    deeper (j, l, e, c) = (j, inr l, e, c)

    split :
        (is_completed x.status && not (is_success x.conclusion)) ≡ true
        → (In k (failed_keys jobs)
            → (j : Job) × In j jobs × (k ≡ j.job_key) × (is_completed j.status ≡ true))
        → (k ≡ x.job_key) ⊎ In k (failed_keys jobs)
        → (j : Job) × In j (x ∷ jobs) × (k ≡ j.job_key) × (is_completed j.status ≡ true)
    split hit rec (inl e) = (x, inl refl, e, ((&&_iff _ _).0 hit).0)
    split hit rec (inr r) = deeper (rec r)

not_both : (j : Job) → is_queued j.status ≡ true → is_completed j.status ≡ true → ⊥
not_both j q c = ground arith

Marked-skip :
    (jobs : List Job) (out : Closure) (j : Job)
    → UniqueKeys jobs
    → In j jobs
    → is_queued j.status ≡ true
    → Marked jobs out.to_skip j.job_key
    → In j.id out.to_skip
Marked-skip jobs out j u l q (early i) =
    let (j', l', e, c) = failed_job jobs j.job_key i in
    absurd (not_both j q (subst (λ x. is_completed x.status ≡ true) (sym (u j j' l l' e)) c))
Marked-skip jobs out j u l q (late j' l' q' e s) =
    subst (λ x. In x.id out.to_skip) (sym (u j j' l l' e)) s

-- With unique keys, the fixpoint ends within its fuel, and the jobs to skip are exactly the queued jobs
-- that need a key that can no longer succeed: one whose job is completed without success, or is queued
-- and itself needs such a key.
pub doomed_closure_iff :
    (jobs : List Job)
    → UniqueKeys jobs
    → (out : Closure) × (doomed_closure jobs ≡ some out)
      × ((i : ℕ) → In i out.to_skip ↔ Skipped jobs i)
doomed_closure_iff jobs u =
    let (out, e) = doomed_closure_total jobs in
    let (g, s) = doomed_closure-Good jobs out e in
    (
      out,
      e,
      λ i. (
        g.skips i,
        λ k.
            subst (λ n. In n out.to_skip) (sym k.same_id)
              (Marked-skip jobs out k.job u k.listed k.waiting (
                g.marks k.job.job_key (
                  Doomed-In jobs out g s k.job.job_key
                    (depends k.job k.listed k.waiting k.needed k.hopeless)))),
      ),
    )
