-- ===== src/Glob/Matching.antt =====
-- `glob_match` (backend/src/services/trigger_eval.rs) answers whether the text matches the tokens.
use mathlib.Core.Bool.{false≢true}
use overup.Prelude.{
  ℕ, zero, suc, ◌+◌, ◌≤◌, ◌<◌, Bool, true, false, Option, none, some, List, [], ◌∷◌, ◌≡◌, refl, sym,
  ap, ◌∙◌, subst, ◌↔◌, ◌⊎◌, inl, inr, arith, if◌then◌else◌, Bool-cases, length, get_elem?, set,
  drop, replicate, any, Text, byte_len, length-set, length-replicate,
}
use overup.Glob.{
  lit, class, any_no_slash, any_all, one, zero_or_one, one_or_more, Token, accepts, crosses,
  Positions, advance, sweep, tokens_match, is_live, tokenize, glob_match, max_pattern_len,
  max_value_len,
}
use overup.Glob.Meaning.{Matches}
use overup.Glob.Positions.{Holds, Holds-cons, drop-one}
use overup.Glob.Steps.{length-run_from, EatsThen, advance_iff}

length-advance :
    (t : Token) (k : ℕ) (s : Text) (next : Positions) → length (advance t k s next) ≡ length next
unfolding advance
length-advance (any_all, q) k s next =
    length-run_from (crosses any_all) k s (set next k true) ∙ length-set next k true
length-advance (any_no_slash, q) k s next =
    length-run_from (crosses any_no_slash) k s (set next k true) ∙ length-set next k true
length-advance (t, one) k [] next = refl
length-advance (t, one) k (c ∷ s) next = ground (arith, length-set next (suc k) true)
length-advance (t, zero_or_one) k [] next = length-set next k true
length-advance (t, zero_or_one) k (c ∷ s) next =
    ground (arith, length-set next k true, length-set (set next k true) (suc k) true)
length-advance (lit x, one_or_more) k s next = length-run_from (accepts (lit x)) k s next
length-advance (class r, one_or_more) k s next = length-run_from (accepts (class r)) k s next

length-if_advance :
    (t : Token) (live : Bool) (k : ℕ) (s : Text) (next : Positions)
    → length (if live then advance t k s next else next) ≡ length next
length-if_advance t true k s next = length-advance t k s next
length-if_advance t false k s next = refl

length-sweep :
    (t : Token) (k : ℕ) (pos : Positions) (s : Text) (next : Positions)
    → length (sweep t k pos s next) ≡ length next
unfolding sweep
length-sweep t k [] s next = refl
length-sweep t k (live ∷ pos) s next =
    length-sweep t (suc k) pos (drop 1 s) _ ∙ length-if_advance t live k s next

-- The next set: every suffix that a live position reaches by one token, and no other.
module _ (Q : Text → Type 0) (v : Text) (t : Token) where
  live_iff :
      (live : Bool) (k : ℕ) (s : Text) (next : Positions)
      → drop k v ≡ s
      → length next ≡ suc (length v)
      → k ≤ length v
      → Holds Q (if live then advance t k s next else next) v
        ↔ (Holds Q next v ⊎ ((live ≡ true) × EatsThen Q v t s))
  live_iff true k s next e len fits =
      let (to, from) = advance_iff Q v t k s next e len fits in
      (
        λ h. elim (to h) [ inl old ↦ inl old | inr x ↦ inr (refl, x) ],
        elim [ inl old ↦ from (inl old) | inr (_, x) ↦ from (inr x) ],
      )
  live_iff false k s next e len fits = (inl, elim [ inl h ↦ h | inr (bad, _) ↦ absurd (cc) ])

  sweep_iff :
      (k : ℕ) (pos : Positions) (s : Text) (next : Positions)
      → drop k v ≡ s
      → length next ≡ suc (length v)
      → k + length pos ≤ suc (length v)
      → Holds Q (sweep t k pos s next) v ↔ (Holds Q next v ⊎ Holds (EatsThen Q v t) pos s)
  unfolding sweep
  sweep_iff k [] s next e len fits = (inl, elim [ inl h ↦ h | inr (i, bad, _) ↦ absurd (cc) ])
  sweep_iff k (live ∷ pos) s next e len fits =
      let (to, from) =
        sweep_iff (suc k) pos (drop 1 s) (if live then advance t k s next else next)
          (sym (drop-one k v) ∙ ap (drop 1) e) (length-if_advance t live k s next ∙ len)
          (omega arith) in
      let (split, join) = live_iff live k s next e len (omega arith) in
      let (first, put) = Holds-cons (EatsThen Q v t) live pos s in
      (
        λ h. elim (to h) [
          | inl g ↦ elim (split g) [ inl old ↦ inl old | inr x ↦ inr (put (inl x)) ]
          | inr later ↦ inr (put (inr later))
        ],
        elim [
          | inl old ↦ from (inl (join (inl old)))
          | inr here ↦ elim (first here) [
            | inl x ↦ from (inl (join (inr x)))
            | inr later ↦ from (inr later)
          ]
        ],
      )

blank-Holds : (Q : Text → Type 0) (n : ℕ) (v : Text) → ¬ Holds Q (replicate n false) v
blank-Holds Q zero v (i, bad, _) = cc
blank-Holds Q (suc n) v (zero, bad, _) = cc
blank-Holds Q (suc n) v (suc i, live, q) = blank-Holds (λ _. Unit) n v (i, live, tt)

none_live :
    (Q : Text → Type 0) (pos : Positions) (v : Text) → any (λ p. p) pos ≡ false → ¬ Holds Q pos v
none_live Q [] v h (i, bad, _) = cc
none_live Q (true ∷ pos) v h _ = cc
none_live Q (false ∷ pos) v h (zero, bad, _) = cc
none_live Q (false ∷ pos) v h (suc i, live, _) = none_live (λ _. Unit) pos v h (i, live, tt)

length-of_drop_nil : (i : ℕ) (v : Text) → drop i v ≡ [] → length v ≤ i
length-of_drop_nil zero [] h = omega arith
length-of_drop_nil zero (c ∷ v) h = cc
length-of_drop_nil (suc i) [] h = omega arith
length-of_drop_nil (suc i) (c ∷ v) h = omega (arith, length-of_drop_nil i v h)

drop-length : (v : Text) → drop (length v) v ≡ []
drop-length [] = refl
drop-length (c ∷ v) = drop-length v

get_elem?-lt : (xs : Positions) (i : ℕ) → get_elem? xs i ≡ some true → i < length xs
get_elem?-lt [] i h = cc
get_elem?-lt (x ∷ xs) zero h = omega arith
get_elem?-lt (x ∷ xs) (suc i) h = omega (arith, get_elem?-lt xs i h)

is_live_iff : (o : Option Bool) → (is_live o ≡ true) ↔ (o ≡ some true)
is_live_iff none = ground arith
is_live_iff (some b) = ground arith

tokens_match_iff :
    (ts : List Token) (pos : Positions) (v : Text)
    → length pos ≡ suc (length v)
    → (tokens_match ts pos v ≡ true) ↔ Holds (Matches ts) pos v
unfolding tokens_match
tokens_match_iff [] pos v len = (
  λ h. (length v, (is_live_iff _).0 h, drop-length v),
  λ (i, live, e).
      let same : i ≡ length v = omega (arith, length-of_drop_nil i v e, get_elem?-lt pos i live) in
      (is_live_iff _).1 (subst (λ j. get_elem? pos j ≡ some true) same live),
)
tokens_match_iff (t ∷ ts) pos v len =
    let n = suc (length v) in
    let blank = replicate n false in
    let next = sweep t 0 pos v blank in
    let blank_len : length blank ≡ n = length-replicate n false in
    let (to, from) = sweep_iff (Matches ts) v t 0 pos v blank refl blank_len (omega arith) in
    let (run, accept) = tokens_match_iff ts next v (length-sweep t 0 pos v blank ∙ blank_len) in
    let split : Holds (Matches ts) next v → Holds (Matches (t ∷ ts)) pos v =
      λ h. elim (to h) [ inl b ↦ absurd (blank-Holds (Matches ts) n v b) | inr x ↦ x ] in
    elim (Bool-cases (any (λ p. p) next)) [
      | inl some_live ↦ rw some_live (λ h. split (run h), λ h. accept (from (inr h)))
      | inr dead ↦ rw dead (
        λ h. absurd (false≢true h),
        λ h. absurd (none_live (Matches ts) next v dead (from (inr h))),
      )
    ]

gate_iff :
    (pattern value : Text)
    → (glob_match pattern value ≡ true) ↔ (
        (byte_len pattern ≤ max_pattern_len)
        × (byte_len value ≤ max_value_len)
        × (tokens_match (tokenize pattern) (true ∷ replicate (length value) false) value ≡ true))
unfolding glob_match
gate_iff pattern value = ground arith

-- At the start only the whole text is live.
start_iff :
    (ts : List Token) (v : Text)
    → (tokens_match ts (true ∷ replicate (length v) false) v ≡ true) ↔ Matches ts v
start_iff ts v =
    let pos : Positions = true ∷ replicate (length v) false in
    let (run, accept) = tokens_match_iff ts pos v (ap suc (length-replicate (length v) false)) in
    let (first, put) = Holds-cons (Matches ts) true (replicate (length v) false) v in
    (
      λ h. elim (first (run h)) [
        | inl (_, m) ↦ m
        | inr b ↦ absurd (blank-Holds (Matches ts) (length v) (drop 1 v) b)
      ],
      λ m. accept (put (inl (refl, m))),
    )

-- Within the caps on their lengths in bytes, a pattern matches a text exactly when the tokens of the
-- pattern, one after the other, take the whole text; beyond the caps nothing matches.
pub glob_match_iff :
    (pattern value : Text)
    → (glob_match pattern value ≡ true) ↔ (
        (byte_len pattern ≤ max_pattern_len)
        × (byte_len value ≤ max_value_len)
        × Matches (tokenize pattern) value)
glob_match_iff pattern value =
    let (to, from) = start_iff (tokenize pattern) value in
    let (open_gate, pass_gate) = gate_iff pattern value in
    (
      λ h. let (short, small, m) = open_gate h in (short, small, to m),
      λ (short, small, m). pass_gate (short, small, from m),
    )
