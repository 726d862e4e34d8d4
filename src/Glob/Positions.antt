-- ===== src/Glob/Positions.antt =====
-- The position sets of `glob_match` (backend/src/services/trigger_eval.rs): which suffixes of the text
-- a set stands for, and what each loop adds to it.
use overup.Prelude.{
  ℕ, zero, suc, ◌<◌, Bool, true, some, [], ◌∷◌, ◌≡◌, refl, ap, ◌↔◌, ◌⊎◌, inl, inr, arith, length,
  get_elem?, set, drop, Text,
}
use overup.Glob.{Positions}

-- A live position from which the rest of the text satisfies `Q`.
abbrev pub Holds : (Text → Type 0) → Positions → Text → Type 0
Holds Q pos v = (i : ℕ) × (get_elem? pos i ≡ some true) × Q (drop i v)

pub set-true :
    (pos : Positions) (k i : ℕ)
    → get_elem? (set pos k true) i ≡ some true
    → (i ≡ k) ⊎ (get_elem? pos i ≡ some true)
set-true [] k i h = inr h
set-true (p ∷ pos) zero zero h = inl refl
set-true (p ∷ pos) zero (suc i) h = inr h
set-true (p ∷ pos) (suc k) zero h = inr h
set-true (p ∷ pos) (suc k) (suc i) h = ground (arith, set-true pos k i h)

pub set_keeps :
    (pos : Positions) (k i : ℕ)
    → get_elem? pos i ≡ some true
    → get_elem? (set pos k true) i ≡ some true
set_keeps [] k i h = h
set_keeps (p ∷ pos) zero zero h = refl
set_keeps (p ∷ pos) zero (suc i) h = h
set_keeps (p ∷ pos) (suc k) zero h = h
set_keeps (p ∷ pos) (suc k) (suc i) h = set_keeps pos k i h

pub set_hit : (pos : Positions) (k : ℕ) → k < length pos → get_elem? (set pos k true) k ≡ some true
set_hit [] k h = elim h [ ]
set_hit (p ∷ pos) zero h = refl
set_hit (p ∷ pos) (suc k) h = set_hit pos k (omega arith)

pub drop-suc : (k : ℕ) (v : Text) {c : ℕ} {s : Text} → drop k v ≡ c ∷ s → drop (suc k) v ≡ s
drop-suc zero [] h = cc
drop-suc zero (x ∷ v) h = cc
drop-suc (suc k) [] h = cc
drop-suc (suc k) (x ∷ v) h = drop-suc k v h

pub drop-lt : (k : ℕ) (v : Text) {c : ℕ} {s : Text} → drop k v ≡ c ∷ s → k < length v
drop-lt zero [] h = cc
drop-lt zero (x ∷ v) h = omega arith
drop-lt (suc k) [] h = cc
drop-lt (suc k) (x ∷ v) h = omega (arith, drop-lt k v h)

pub drop-one : (k : ℕ) (v : Text) → drop 1 (drop k v) ≡ drop (suc k) v
drop-one zero v = refl
drop-one (suc k) [] = refl
drop-one (suc k) (x ∷ v) = drop-one k v

drop-nil : (i : ℕ) → drop {A = ℕ} i [] ≡ []
drop-nil zero = refl
drop-nil (suc i) = refl

drop-drop_one : (i : ℕ) (s : Text) → drop i (drop 1 s) ≡ drop (suc i) s
drop-drop_one i [] = drop-nil i
drop-drop_one i (c ∷ s) = refl

pub Holds-cons :
    (P : Text → Type 0) (b : Bool) (pos : Positions) (s : Text)
    → Holds P (b ∷ pos) s ↔ (((b ≡ true) × P s) ⊎ Holds P pos (drop 1 s))
Holds-cons P b pos s = (to, from)
  where
    to : Holds P (b ∷ pos) s → ((b ≡ true) × P s) ⊎ Holds P pos (drop 1 s)
    to (zero, live, p) = inl (cc, p)
    to (suc i, live, p) = inr (i, live, rw (drop-drop_one i s) p)

    from : ((b ≡ true) × P s) ⊎ Holds P pos (drop 1 s) → Holds P (b ∷ pos) s
    from (inl (live, p)) = (zero, ap some live, p)
    from (inr (i, live, p)) = (suc i, live, rw (← drop-drop_one i s) p)
