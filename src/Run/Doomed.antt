-- ===== src/Run/Doomed.antt =====
-- `skip_dependents` (backend/src/services/pipeline_run.rs): its fixpoint ends, and dooms the keys of the
-- jobs that can no longer succeed.
use overup.Prelude.{
  ℕ, zero, suc, ◌<◌, ◌≤◌, Bool, true, false, not, ◌&&◌, some, List, [], ◌∷◌, if◌then◌else◌, length,
  Text, contains, ◌≡◌, refl, ◌↔◌, ◌⊎◌, inl, inr, arith, In, text_eq_iff, text_eq_refl, Bool-cases,
  All, sym, ◌∙◌, subst,
}
use mathlib.Core.Option.{none-ne-some, some_inj}
use mathlib.Core.Bool.{true≢false}
use overup.Db.Rows.{Job, is_queued}
use overup.Run.{Closure, has_doomed_need, doom, visit, pass, close, failed_keys, doomed_closure}

pub contains_iff : (keys : List Text) (k : Text) → (contains keys k ≡ true) ↔ In k keys
contains_iff [] k = ground arith
contains_iff (x ∷ keys) k = ground (arith, text_eq_iff x k, contains_iff keys k)

-- A queued job whose key is not doomed yet.
abbrev pub is_open : List Text → Job → Bool
is_open doomed j = is_queued j.status && not (contains doomed j.job_key)

-- What a visit does.
pub visit_cases :
    (c : Closure) (j : Job)
    → ((visit c j ≡ c) × ((is_open c.doomed j ≡ false) ⊎ (has_doomed_need c.doomed j ≡ false)))
      ⊎ ((visit c j ≡ doom c j) × (is_open c.doomed j ≡ true) × (has_doomed_need c.doomed j ≡ true))
unfolding visit
visit_cases c j = ground arith

-- How many jobs are open.
abbrev pub count_open : List Text → List Job → ℕ
count_open doomed [] = 0
count_open doomed (j ∷ js) =
    if is_open doomed j then suc (count_open doomed js) else count_open doomed js

count_open_le : (doomed : List Text) (js : List Job) → count_open doomed js ≤ length js
count_open_le doomed [] = omega arith
count_open_le doomed (j ∷ js) = ground (arith, count_open_le doomed js)

count_open_mono :
    (k : Text) (doomed : List Text) (js : List Job)
    → count_open (k ∷ doomed) js ≤ count_open doomed js
count_open_mono k doomed [] = omega arith
count_open_mono k doomed (j ∷ js) = ground (arith, count_open_mono k doomed js)

count_open_self :
    (doomed : List Text) (j : Job) (js : List Job)
    → is_open doomed j ≡ true
    → count_open (j.job_key ∷ doomed) (j ∷ js) < count_open doomed (j ∷ js)
count_open_self doomed j js h =
    ground (arith, text_eq_refl j.job_key, count_open_mono j.job_key doomed js)

count_open-doom :
    (doomed : List Text) (js : List Job) (j : Job)
    → In j js
    → is_open doomed j ≡ true
    → count_open (j.job_key ∷ doomed) js < count_open doomed js
count_open-doom doomed [] j i h = absurd i
count_open-doom doomed (x ∷ js) j (inl e) h =
    subst (λ y. count_open (j.job_key ∷ doomed) (y ∷ js) < count_open doomed (y ∷ js)) e
      (count_open_self doomed j js h)
count_open-doom doomed (x ∷ js) j (inr i) h = ground (arith, count_open-doom doomed js j i h)

-- One run of the loop's body.
abbrev pub sweep : List Job → Closure → Closure
sweep jobs c = pass (record c { changed = false }) jobs

pub close_more :
    (fuel : ℕ) (jobs : List Job) (c : Closure)
    → (sweep jobs c).changed ≡ true
    → close (suc fuel) jobs c ≡ close fuel jobs (sweep jobs c)
unfolding close
close_more fuel jobs c e = rw e refl

pub close_done :
    (fuel : ℕ) (jobs : List Job) (c : Closure)
    → (sweep jobs c).changed ≡ false
    → close (suc fuel) jobs c ≡ some (sweep jobs c)
unfolding close
close_done fuel jobs c e = rw e refl

-- What every doomed job of `jobs` preserves, the loops preserve.
module _ (jobs : List Job) (P : Closure → Type 0)
    (keeps : (c : Closure) (j : Job)
      → In j jobs
      → is_open c.doomed j ≡ true
      → has_doomed_need c.doomed j ≡ true
      → P c
      → P (doom c j)) where
  pub pass_keeps :
      (js : List Job) → ((j : Job) → In j js → In j jobs) → (c : Closure) → P c → P (pass c js)
  unfolding pass
  pass_keeps [] sub c p = p
  pass_keeps (j ∷ js) sub c p =
      pass_keeps js (λ x i. sub x (inr i)) (visit c j)
        (elim (visit_cases c j) [
          | inl (e, _) ↦ subst P (sym e) p
          | inr (e, o, n) ↦ subst P (sym e) (keeps c j (sub j (inl refl)) o n p)
        ])

  pub close_keeps :
      ((c : Closure) → P c → P (record c { changed = false }))
      → (fuel : ℕ) (c out : Closure) → close fuel jobs c ≡ some out
      → P c
      → P out
  unfolding close
  close_keeps reset zero c out e p = absurd (none-ne-some out e)
  close_keeps reset (suc fuel) c out e p =
      let after = pass_keeps jobs (λ j i. i) (record c { changed = false }) (reset c p) in
      elim (Bool-cases (sweep jobs c).changed) [
        | inl more ↦
            close_keeps reset fuel (sweep jobs c) out (sym (close_more fuel jobs c more) ∙ e) after
        | inr done ↦ subst P (some_inj.0 (sym (close_done fuel jobs c done) ∙ e)) after
      ]

-- Enough fuel: one more than the open jobs.
pass_changed : (js : List Job) (c : Closure) → c.changed ≡ true → (pass c js).changed ≡ true
pass_changed js c e = pass_keeps js (λ c. c.changed ≡ true) (λ c j i o n p. refl) js (λ j i. i) c e

abbrev pub Settled : Closure → Job → Type 0
Settled c j = (is_open c.doomed j ≡ false) ⊎ (has_doomed_need c.doomed j ≡ false)

pub pass_stable :
    (js : List Job) (c : Closure)
    → (pass c js).changed ≡ false
    → (pass c js ≡ c) × All (Settled c) js
unfolding pass
pass_stable [] c e = (refl, tt)
pass_stable (j ∷ js) c e = elim (visit_cases c j) [
  | inl (v, side) ↦
      (let (same, rest) = pass_stable js (visit c j) e in
        (same ∙ v, (side, subst (λ d. All (Settled d) js) v rest)))
  | inr (v, _, _) ↦ absurd (
      true≢false
        (sym (pass_changed js (visit c j) (subst (λ c. c.changed ≡ true) (sym v) refl)) ∙ e))
]

-- A pass that changes something leaves fewer jobs open.
sweep_shrinks :
    (jobs : List Job) (c : Closure)
    → (sweep jobs c).changed ≡ true
    → count_open (sweep jobs c).doomed jobs < count_open c.doomed jobs
sweep_shrinks jobs c e =
    (pass_keeps jobs
        (λ x.
          (count_open x.doomed jobs ≤ count_open c.doomed jobs)
          × (x.changed ≡ true → count_open x.doomed jobs < count_open c.doomed jobs))
        (λ x j i o n (le, lt).
          let less = count_open-doom x.doomed jobs j i o in
          (omega (arith, less, le), λ _. omega (arith, less, le)))
        jobs (λ j i. i) (record c { changed = false })
        (omega arith, λ e. absurd (true≢false (sym e)))).1
      e

close_total :
    (fuel : ℕ) (jobs : List Job) (c : Closure)
    → count_open c.doomed jobs < fuel
    → (out : Closure) × (close fuel jobs c ≡ some out)
close_total zero jobs c h = absurd (omega (arith, h))
close_total (suc fuel) jobs c h = elim (Bool-cases (sweep jobs c).changed) [
  | inl more ↦
      (let (out, e) =
          close_total fuel jobs (sweep jobs c) (omega (arith, h, sweep_shrinks jobs c more)) in
        (out, close_more fuel jobs c more ∙ e))
  | inr done ↦ (sweep jobs c, close_done fuel jobs c done)
]

pub close-Settled :
    (fuel : ℕ) (jobs : List Job) (c out : Closure)
    → close fuel jobs c ≡ some out
    → All (Settled out) jobs
unfolding close
close-Settled zero jobs c out e = absurd (none-ne-some out e)
close-Settled (suc fuel) jobs c out e = elim (Bool-cases (sweep jobs c).changed) [
  | inl more ↦ close-Settled fuel jobs (sweep jobs c) out (sym (close_more fuel jobs c more) ∙ e)
  | inr done ↦
      (let (same, all) = pass_stable jobs (record c { changed = false }) done in
        subst (λ x. All (Settled x) jobs)
          (sym same ∙ some_inj.0 (sym (close_done fuel jobs c done) ∙ e)) all)
]

pub doomed_closure_total : (jobs : List Job) → (out : Closure) × (doomed_closure jobs ≡ some out)
unfolding doomed_closure
doomed_closure_total jobs =
    close_total (suc (length jobs)) jobs
      (record { doomed = failed_keys jobs; to_skip = []; changed = false })
      (omega (arith, count_open_le (failed_keys jobs) jobs))
