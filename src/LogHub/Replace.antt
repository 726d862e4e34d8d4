-- ===== src/LogHub/Replace.antt =====
-- `apply_masks` (backend/src/services/log_hub.rs): no registered value is left in what it returns.
use mathlib.Core.Bool.{true≢false, false≢true}
use overup.Prelude.{
  append-nil, ℕ, zero, suc, ◌-◌, ◌≡◌, refl, sym, ◌∙◌, subst, true, false, ◌&&◌, List, [], ◌∷◌, ◌++◌,
  if◌then◌else◌, ◌==◌, length, is_empty, All, arith, Bool-cases, &&_iff, inl, inr, Text,
}
use overup.LogHub.{stars, starts_with, occurs, replace_from, apply_masks}

-- A value that is not empty and has no star, so that the stars of a replacement cannot make a new one.
abbrev pub StarFree : Text → Type 0
StarFree value = All (λ c. (c == b'*') ≡ false) value

abbrev pub Maskable : Text → Type 0
Maskable value = (is_empty value ≡ false) × StarFree value

-- A text without stars at the front of a replacement, whatever follows it, is at the front of the text.
pub starts_with-before :
    (value w s t : Text)
    → StarFree w
    → starts_with w (replace_from value 0 s ++ t) ≡ true
    → starts_with w (s ++ t) ≡ true
starts_with-before value [] s t f h = refl
starts_with-before value (p ∷ ps) [] t f h = h
starts_with-before value (p ∷ ps) (c ∷ s) t (f, fs) h =
    elim (Bool-cases (starts_with value (c ∷ s))) [
      | inl hit ↦
          (let both : (p == b'*'
                  && starts_with ps (b'*' ∷ b'*' ∷ replace_from value (length value - 1) s ++ t))
                ≡ true =
              rw hit at h in
            absurd (false≢true (sym f ∙ ((&&_iff _ _).0 both).0)))
      | inr miss ↦
          (let both : (p == c && starts_with ps (replace_from value 0 s ++ t)) ≡ true =
              rw miss at h in
            let same : p == c ≡ true = ((&&_iff _ _).0 both).0 in
            let rest : starts_with ps (replace_from value 0 s ++ t) ≡ true =
              ((&&_iff _ _).0 both).1 in
            rw (same, starts_with-before value ps s t fs rest) refl)
    ]

starts_with-replace :
    (value w s : Text)
    → StarFree w
    → starts_with w (replace_from value 0 s) ≡ true
    → starts_with w s ≡ true
starts_with-replace value w s f h =
    subst (λ x. starts_with w x ≡ true) (append-nil s)
      (starts_with-before value w s [] f
        (subst (λ x. starts_with w x ≡ true) (sym (append-nil (replace_from value 0 s))) h))

no_star_starts : (w rest : Text) → Maskable w → starts_with w (b'*' ∷ rest) ≡ false
no_star_starts [] rest (n, f) = absurd (true≢false n)
no_star_starts (p ∷ ps) rest (n, (f, fs)) = rw f refl

occurs-stars : (w rest : Text) → Maskable w → occurs w (stars ++ rest) ≡ occurs w rest
occurs-stars w rest m =
    rw
      (
        no_star_starts w (b'*' ∷ b'*' ∷ rest) m,
        no_star_starts w (b'*' ∷ rest) m,
        no_star_starts w rest m,
      )
      refl

starts_with-miss :
    (value w : Text) (c : ℕ) (s : Text)
    → StarFree w
    → starts_with value (c ∷ s) ≡ false
    → starts_with w (c ∷ s) ≡ false
    → starts_with w (c ∷ replace_from value 0 s) ≡ false
starts_with-miss value w c s f miss h =
    elim (Bool-cases (starts_with w (c ∷ replace_from value 0 s))) [
      | inl e ↦ absurd (true≢false (sym (starts_with-replace value w (c ∷ s) f (rw miss e)) ∙ h))
      | inr e ↦ e
    ]

-- A replacement makes no occurrence of a value without stars.
occurs-replace :
    (value w : Text) (skip : ℕ) (s : Text)
    → Maskable w
    → occurs w s ≡ false
    → occurs w (replace_from value skip s) ≡ false
occurs-replace value w skip [] m h = h
occurs-replace value w (suc skip) (c ∷ s) m h = occurs-replace value w skip s m (ground arith)
occurs-replace value w zero (c ∷ s) m h = elim (Bool-cases (starts_with value (c ∷ s))) [
  | inl hit ↦ rw hit (
      occurs-stars w (replace_from value (length value - 1) s) m
      ∙ occurs-replace value w (length value - 1) s m (ground arith))
  | inr miss ↦
      rw
        (
          miss,
          starts_with-miss value w c s m.1 miss (ground arith),
          occurs-replace value w 0 s m (ground arith),
        )
        refl
]

-- A replacement leaves no occurrence of the value itself.
occurs_self :
    (value : Text) (skip : ℕ) (s : Text)
    → Maskable value
    → occurs value (replace_from value skip s) ≡ false
occurs_self value skip [] m = m.0
occurs_self value (suc skip) (c ∷ s) m = occurs_self value skip s m
occurs_self value zero (c ∷ s) m = elim (Bool-cases (starts_with value (c ∷ s))) [
  | inl hit ↦ rw hit (
      occurs-stars value (replace_from value (length value - 1) s) m
      ∙ occurs_self value (length value - 1) s m)
  | inr miss ↦
      rw (miss, starts_with-miss value value c s m.1 miss miss, occurs_self value 0 s m) refl
]

apply_masks-keeps :
    (values : List Text) (w text : Text)
    → Maskable w
    → occurs w text ≡ false
    → occurs w (apply_masks values text) ≡ false
apply_masks-keeps [] w text m h = h
apply_masks-keeps (value ∷ values) w text m h = elim (Bool-cases (occurs value text)) [
  | inl o ↦
      rw o (
        apply_masks-keeps values w (replace_from value 0 text) m
          (occurs-replace value w 0 text m h))
  | inr o ↦ rw o (apply_masks-keeps values w text m h)
]

-- No registered value occurs in the masked text, whatever the values have in common, if none is empty or
-- has a star in it.
pub apply_masks-hides :
    (values : List Text) (text : Text)
    → All Maskable values
    → All (λ v. occurs v (apply_masks values text) ≡ false) values
apply_masks-hides [] text m = tt
apply_masks-hides (value ∷ values) text (m, ms) =
    let after = if occurs value text then replace_from value 0 text else text in
    let gone : occurs value after ≡ false = elim (Bool-cases (occurs value text)) [
      | inl o ↦ rw o (occurs_self value 0 text m)
      | inr o ↦ rw o o
    ] in
    (apply_masks-keeps values value after m gone, apply_masks-hides values after ms)

pub starts_with-masks :
    (values : List Text) (w s t : Text)
    → StarFree w
    → starts_with w (apply_masks values s ++ t) ≡ true
    → starts_with w (s ++ t) ≡ true
starts_with-masks [] w s t f h = h
starts_with-masks (value ∷ values) w s t f h =
    let after = if occurs value s then replace_from value 0 s else s in
    let back : starts_with w (after ++ t) ≡ true = starts_with-masks values w after t f h in
    elim (Bool-cases (occurs value s)) [
      | inl o ↦ starts_with-before value w s t f (rw o at back)
      | inr o ↦ rw o at back
    ]
