-- ===== src/Glob/Steps.antt =====
-- What each loop of `glob_match` (backend/src/services/trigger_eval.rs) adds to a position set.
use mathlib.Core.Bool.{false≢true}
use overup.Prelude.{
  ℕ, suc, ◌≤◌, ◌<◌, Bool, true, false, [], ◌∷◌, ◌≡◌, refl, sym, ◌∙◌, subst, ◌↔◌, ◌⊎◌, inl, inr,
  arith, if◌then◌else◌, Bool-cases, length, set, drop, Text, length-set,
}
use overup.Glob.{
  Tok, lit, class, any_no_slash, any_all, one, zero_or_one, one_or_more, Token, accepts, crosses,
  Positions, run_from, advance,
}
use overup.Glob.Meaning.{Run, stop, more, EatsOne, EatsMany, Eats}
use overup.Glob.Positions.{Holds, set-true, set_keeps, set_hit, drop-suc, drop-lt}

pub length-run_from :
    (test : ℕ → Bool) (k : ℕ) (s : Text) (next : Positions)
    → length (run_from test k s next) ≡ length next
unfolding run_from
length-run_from test k [] next = refl
length-run_from test k (c ∷ s) next =
    ground
      (arith, length-run_from test (suc k) s (set next (suc k) true), length-set next (suc k) true)

module _ (Q : Text → Type 0) (v : Text) where
  set_iff :
      (next : Positions) (k : ℕ)
      → k < length next
      → Holds Q (set next k true) v ↔ (Holds Q next v ⊎ Q (drop k v))
  set_iff next k h = (
    λ (i, live, q). elim (set-true next k i live) [
      | inl e ↦ inr (subst (λ j. Q (drop j v)) e q)
      | inr old ↦ inl (i, old, q)
    ],
    elim [ inl (i, live, q) ↦ (i, set_keeps next k i live, q) | inr q ↦ (k, set_hit next k h, q) ],
  )

  -- At least one character that passes the test, then a suffix that satisfies `Q`.
  abbrev ManyThen : (ℕ → Bool) → Text → Type 0
  ManyThen test s = (s' : Text) × EatsMany test s s' × Q s'

  many_split : {test : ℕ → Bool} {s s' : Text} → Run test s s' → Q s' → Q s ⊎ ManyThen test s
  many_split stop q = inl q
  many_split (more {c} {s} {t} pass r) q = inr (t, (c, s, refl, pass, r), q)

  many_cons :
      {test : ℕ → Bool} {c : ℕ} {s : Text}
      → test c ≡ true
      → ManyThen test (c ∷ s) ↔ (Q s ⊎ ManyThen test s)
  many_cons {test} {c} {s} pass = (
    λ (s', (d, m, e, _, r), q).
        let same : m ≡ s = cc in many_split (subst (λ x. Run test x s') same r) q,
    elim [
      | inl q ↦ (s, (c, s, refl, pass, stop), q)
      | inr (s', (d, m, e, p, r), q) ↦ (s', (c, s, refl, pass, rw e (more p r)), q)
    ],
  )

  many_stuck : {test : ℕ → Bool} {c : ℕ} {s : Text} → test c ≡ false → ¬ ManyThen test (c ∷ s)
  many_stuck {test} stuck (s', (d, m, e, p, r), q) = cc

  -- What the inner loop adds, from `value[k..]` on.
  run_iff :
      (test : ℕ → Bool) (k : ℕ) (s : Text) (next : Positions)
      → drop k v ≡ s
      → length next ≡ suc (length v)
      → Holds Q (run_from test k s next) v ↔ (Holds Q next v ⊎ ManyThen test s)
  unfolding run_from
  run_iff test k [] next e len =
      (inl, elim [ inl h ↦ h | inr (s', (c, m, bad, _, _), _) ↦ absurd (cc) ])
  run_iff test k (c ∷ s) next e len = elim (Bool-cases (test c)) [
    | inr stuck ↦ rw stuck (inl, elim [ inl h ↦ h | inr m ↦ absurd (many_stuck stuck m) ])
    | inl pass ↦
        let rest = drop-suc k v e in
        let (to, from) =
          run_iff test (suc k) s (set next (suc k) true) rest
            (length-set next (suc k) true ∙ len) in
        let (old_or_here, add) = set_iff next (suc k) (omega (arith, drop-lt k v e)) in
        rw pass (
          λ h. elim (to h) [
            | inl g ↦ elim (old_or_here g) [
              | inl old ↦ inl old
              | inr q ↦ inr ((many_cons pass).1 (inl (subst Q rest q)))
            ]
            | inr m ↦ inr ((many_cons pass).1 (inr m))
          ],
          elim [
            | inl old ↦ from (inl (add (inl old)))
            | inr m ↦ elim ((many_cons pass).0 m) [
              | inl q ↦ from (inl (add (inr (rw rest q))))
              | inr n ↦ from (inr n)
            ]
          ],
        )
  ]

  -- One token, then a suffix that satisfies `Q`.
  abbrev pub EatsThen : Token → Text → Type 0
  EatsThen t s = (s' : Text) × Eats t s s' × Q s'

  abbrev OneThen : Tok → Text → Type 0
  OneThen t s = (s' : Text) × EatsOne t s s' × Q s'

  star_iff :
      (test : ℕ → Bool) (k : ℕ) (s : Text) (next : Positions)
      → drop k v ≡ s
      → length next ≡ suc (length v)
      → k ≤ length v
      → Holds Q (run_from test k s (set next k true)) v
        ↔ (Holds Q next v ⊎ ((s' : Text) × Run test s s' × Q s'))
  star_iff test k s next e len fits =
      let (to, from) = run_iff test k s (set next k true) e (length-set next k true ∙ len) in
      let (old_or_here, add) = set_iff next k (omega arith) in
      (
        λ h. elim (to h) [
          | inl g ↦ elim (old_or_here g) [ inl old ↦ inl old | inr q ↦ inr (s, stop, subst Q e q) ]
          | inr (s', (c, m, e', p, r), q) ↦ inr (s', rw e' (more p r), q)
        ],
        elim [
          | inl old ↦ from (inl (add (inl old)))
          | inr (s', r, q) ↦ elim (many_split r q) [
            | inl q' ↦ from (inl (add (inr (rw e q'))))
            | inr m ↦ from (inr m)
          ]
        ],
      )

  one_nil : (t : Tok) → ¬ OneThen t []
  one_nil t (s', (c, e, p), q) = cc

  one_iff :
      (t : Tok) (k : ℕ) (c : ℕ) (s : Text) (next : Positions)
      → drop k v ≡ c ∷ s
      → length next ≡ suc (length v)
      → Holds Q (if accepts t c then set next (suc k) true else next) v
        ↔ (Holds Q next v ⊎ OneThen t (c ∷ s))
  one_iff t k c s next e len =
      let rest = drop-suc k v e in
      elim (Bool-cases (accepts t c)) [
        | inr stuck ↦
            rw stuck (inl, elim [ inl h ↦ h | inr (s', (d, e', p), q) ↦ absurd (false≢true (cc)) ])
        | inl pass ↦
            let (old_or_here, add) = set_iff next (suc k) (omega (arith, drop-lt k v e)) in
            rw pass (
              λ h. elim (old_or_here h) [
                | inl old ↦ inl old
                | inr q ↦ inr (s, (c, refl, pass), subst Q rest q)
              ],
              elim [
                | inl old ↦ add (inl old)
                | inr (s', (d, e', p), q) ↦
                    let same : s' ≡ s = cc in add (inr (rw rest (subst Q same q)))
              ],
            )
      ]

  opt_nil :
      (t : Tok) (k : ℕ) (next : Positions)
      → drop k v ≡ []
      → k < length next
      → Holds Q (set next k true) v
        ↔ (Holds Q next v ⊎ ((s' : Text) × (([] ≡ s') ⊎ EatsOne t [] s') × Q s'))
  opt_nil t k next e fits =
      let (old_or_here, add) = set_iff next k fits in
      (
        λ h. elim (old_or_here h) [ inl old ↦ inl old | inr q ↦ inr ([], inl refl, subst Q e q) ],
        elim [
          | inl old ↦ add (inl old)
          | inr (s', inl e', q) ↦ add (inr (rw e (subst Q (sym e') q)))
          | inr (s', inr (c, bad, _), q) ↦ absurd (cc)
        ],
      )

  opt_iff :
      (t : Tok) (k : ℕ) (c : ℕ) (s : Text) (next : Positions)
      → drop k v ≡ c ∷ s
      → length next ≡ suc (length v)
      → Holds Q (if accepts t c then set (set next k true) (suc k) true else set next k true) v
        ↔ (Holds Q next v ⊎ ((s' : Text) × ((c ∷ s ≡ s') ⊎ EatsOne t (c ∷ s) s') × Q s'))
  opt_iff t k c s next e len =
      let (to, from) = one_iff t k c s (set next k true) e (length-set next k true ∙ len) in
      let (old_or_here, add) = set_iff next k (omega (arith, drop-lt k v e)) in
      (
        λ h. elim (to h) [
          | inl g ↦ elim (old_or_here g) [
            | inl old ↦ inl old
            | inr q ↦ inr (c ∷ s, inl refl, subst Q e q)
          ]
          | inr (s', o, q) ↦ inr (s', inr o, q)
        ],
        elim [
          | inl old ↦ from (inl (add (inl old)))
          | inr (s', inl e', q) ↦ from (inl (add (inr (rw e (subst Q (sym e') q)))))
          | inr (s', inr o, q) ↦ from (inr (s', o, q))
        ],
      )

  -- What one live start adds to the next set: the suffixes after one token taken from here.
  pub advance_iff :
      (t : Token) (k : ℕ) (s : Text) (next : Positions)
      → drop k v ≡ s
      → length next ≡ suc (length v)
      → k ≤ length v
      → Holds Q (advance t k s next) v ↔ (Holds Q next v ⊎ EatsThen t s)
  unfolding advance
  advance_iff (any_all, q) k s next e len fits = star_iff (crosses any_all) k s next e len fits
  advance_iff (any_no_slash, q) k s next e len fits =
      star_iff (crosses any_no_slash) k s next e len fits
  advance_iff (lit x, one) k [] next e len fits =
      (inl, elim [ inl h ↦ h | inr o ↦ absurd (one_nil (lit x) o) ])
  advance_iff (lit x, one) k (c ∷ s) next e len fits = one_iff (lit x) k c s next e len
  advance_iff (lit x, zero_or_one) k [] next e len fits = opt_nil (lit x) k next e (omega arith)
  advance_iff (lit x, zero_or_one) k (c ∷ s) next e len fits = opt_iff (lit x) k c s next e len
  advance_iff (lit x, one_or_more) k s next e len fits = run_iff (accepts (lit x)) k s next e len
  advance_iff (class r, one) k [] next e len fits =
      (inl, elim [ inl h ↦ h | inr o ↦ absurd (one_nil (class r) o) ])
  advance_iff (class r, one) k (c ∷ s) next e len fits = one_iff (class r) k c s next e len
  advance_iff (class r, zero_or_one) k [] next e len fits = opt_nil (class r) k next e (omega arith)
  advance_iff (class r, zero_or_one) k (c ∷ s) next e len fits = opt_iff (class r) k c s next e len
  advance_iff (class r, one_or_more) k s next e len fits =
      run_iff (accepts (class r)) k s next e len
