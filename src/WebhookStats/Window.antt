-- ===== src/WebhookStats/Window.antt =====
-- What one slot of the ring of backend/src/services/webhook_stats.rs holds.
use native.Mathlib.Nat.{mod-eq_of_lt}
use overup.Prelude.{
  All-map, ℕ, ◌+◌, ◌%◌, ◌^◌, ◌≤◌, ◌<◌, ◌≡◌, ◌≢◌, refl, ◌∙◌, ap, ◌⊎◌, inl, inr, Bool, true, false,
  ◌&&◌, List, [], ◌∷◌, if◌then◌else◌, ◌==◌, ==_refl, ==_iff, All, Bool-cases, arith, length,
}
use overup.WebhookStats.{
  SignatureError, buckets, WebhookAuthStats, default, hour_of, increment, restart, record_at,
}

-- A rejection, with its time.
abbrev pub Rejection : Type 0
Rejection = SignatureError × ℕ

-- The counters after a history, the latest rejection first.
abbrev pub after : List Rejection → WebhookAuthStats
after [] = default
after ((cause, at) ∷ earlier) = record_at cause at (after earlier)

-- No rejection is older than one before it.
abbrev pub IsOrdered : List Rejection → Type 0
IsOrdered [] = Unit
IsOrdered (r ∷ earlier) = All (λ (x : Rejection). x.1 ≤ r.1) earlier × IsOrdered earlier

-- The rejections in a history that pass a test on their hour.
abbrev pub count : (ℕ → Bool) → List Rejection → ℕ
count p [] = 0
count p (r ∷ earlier) = (if p (hour_of r.1) then 1 else 0) + count p earlier

pub count-le-length : (p : ℕ → Bool) (h : List Rejection) → count p h ≤ length h
count-le-length p [] = omega arith
count-le-length p (r ∷ h) = ground (arith, count-le-length p h)

-- An hour of the slot.
abbrev pub in_slot : ℕ → ℕ → ℕ → Bool
in_slot slot stamp hour = hour == stamp && hour % buckets == slot

-- A slot holds its latest hour, with the number of rejections in it.
pub record IsSlot (h : List Rejection) (slot stamp held : ℕ) : Type 0 where
  pub counted : held ≡ count (in_slot slot stamp) h
  pub latest : All (λ (r : Rejection). hour_of r.1 % buckets ≡ slot → hour_of r.1 ≤ stamp) h
  pub placed : (stamp ≡ 0) ⊎ (stamp % buckets ≡ slot)
  pub bound : (top : ℕ) → All (λ (r : Rejection). hour_of r.1 ≤ top) h → stamp ≤ top

restart-other :
    (slot hour i : ℕ) (stats : WebhookAuthStats)
    → (i == slot) ≡ false
    → ((restart slot hour stats).bucket_hours i ≡ stats.bucket_hours i)
      × ((restart slot hour stats).bucket_counts i ≡ stats.bucket_counts i)
unfolding restart
restart-other slot hour i stats other = elim (Bool-cases (stats.bucket_hours slot == hour)) [
  | inl e ↦ rw e (refl, refl)
  | inr e ↦ rw e (rw other (refl, refl))
]

pub record_at-other :
    (cause : SignatureError) (now i : ℕ) (stats : WebhookAuthStats)
    → (i == hour_of now % buckets) ≡ false
    → ((record_at cause now stats).bucket_hours i ≡ stats.bucket_hours i)
      × ((record_at cause now stats).bucket_counts i ≡ stats.bucket_counts i)
unfolding record_at
record_at-other cause now i stats other = rw other (restart-other _ _ i _ other)

-- The slot of the hour holds that hour, and one more.
pub record_at_self :
    (cause : SignatureError) (now : ℕ) (stats : WebhookAuthStats)
    → ((record_at cause now stats).bucket_hours (hour_of now % buckets) ≡ hour_of now)
      × ((record_at cause now stats).bucket_counts (hour_of now % buckets)
          ≡ increment (
              if stats.bucket_hours (hour_of now % buckets) == hour_of now
              then stats.bucket_counts (hour_of now % buckets)
              else 0))
unfolding record_at restart
record_at_self cause now stats =
    let slot = hour_of now % buckets in
    elim (Bool-cases (stats.bucket_hours slot == hour_of now)) [
      | inl e ↦
          rw e (rw (==_refl slot) ((==_iff (stats.bucket_hours slot) (hour_of now)).0 e, refl))
      | inr e ↦ rw e (rw (==_refl slot) (refl, refl))
    ]

hour_mono : (a b : ℕ) → a ≤ b → hour_of a ≤ hour_of b
hour_mono a b h = omega arith

pub hours_below :
    (h : List Rejection) (at : ℕ)
    → All (λ (x : Rejection). x.1 ≤ at) h
    → All (λ (x : Rejection). hour_of x.1 ≤ hour_of at) h
hours_below [] at a = tt
hours_below (r ∷ h) at (a, as') = (hour_mono r.1 at a, hours_below h at as')

pub count-none :
    (p : ℕ → Bool) (h : List Rejection)
    → All (λ (r : Rejection). p (hour_of r.1) ≡ false) h
    → count p h ≡ 0
count-none p [] a = refl
count-none p (r ∷ h) (a, more) = rw a (omega (arith, count-none p h more))

pub nothing-IsSlot : (slot : ℕ) → IsSlot [] slot 0 0
nothing-IsSlot slot = record {
  counted = refl;
  latest = tt;
  placed = inl refl;
  bound = λ top _. omega arith;
}

-- A rejection leaves the slots of other hours.
pub keep-IsSlot :
    (r : Rejection) (slot stamp held : ℕ) (h : List Rejection)
    → hour_of r.1 % buckets ≢ slot
    → IsSlot h slot stamp held
    → IsSlot (r ∷ h) slot stamp held
keep-IsSlot r slot stamp held h differ s =
    let unseen : in_slot slot stamp (hour_of r.1) ≡ false = ground (arith, differ) in
    record {
      counted = s.counted ∙ (rw unseen (omega arith));
      latest = (λ e. absurd (differ e), s.latest);
      placed = s.placed;
      bound = λ top a. s.bound top a.1;
    }

self_in_slot : (hour : ℕ) → in_slot (hour % buckets) hour hour ≡ true
self_in_slot hour = ground arith

-- An earlier hour is no later one.
none_in_hour :
    (hour stamp : ℕ) (h : List Rejection)
    → stamp ≢ hour
    → stamp ≤ hour
    → All (λ (r : Rejection). hour_of r.1 % buckets ≡ hour % buckets → hour_of r.1 ≤ stamp) h
    → All (λ (r : Rejection). in_slot (hour % buckets) hour (hour_of r.1) ≡ false) h
none_in_hour hour stamp [] other below a = tt
none_in_hour hour stamp (r ∷ h) other below (a, more) = (
  (elim (Bool-cases (in_slot (hour % buckets) hour (hour_of r.1))) [
    | inr e ↦ e
    | inl e ↦
        let same : hour_of r.1 ≡ hour = ground (arith, e) in
        absurd (omega (arith, other, below, same, a (ap (λ t. t % buckets) same)))
  ]),
  none_in_hour hour stamp h other below more,
)

increment_small : (n : ℕ) → n + 1 < 2 ^ 64 → increment n ≡ n + 1
increment_small n h = mod-eq_of_lt h

-- The slot of its own hour takes a rejection.
pub take-IsSlot :
    (r : Rejection) (stamp held : ℕ) (h : List Rejection)
    → All (λ (x : Rejection). hour_of x.1 ≤ hour_of r.1) h
    → length h + 1 < 2 ^ 64
    → IsSlot h (hour_of r.1 % buckets) stamp held
    → IsSlot
        (r ∷ h)
        (hour_of r.1 % buckets)
        (hour_of r.1)
        (increment (if stamp == hour_of r.1 then held else 0))
take-IsSlot r stamp held h old few s =
    let hour = hour_of r.1 in
    record {
      counted = rw (self_in_slot hour) (elim (Bool-cases (stamp == hour)) [
        | inl e ↦
            let same = (==_iff stamp hour).0 e in
            let held_is : held ≡ count (in_slot (hour % buckets) hour) h =
              s.counted ∙ ap (λ t. count (in_slot (hour % buckets) t) h) same in
            let small = count-le-length (in_slot (hour % buckets) hour) h in
            rw e
              (increment_small held (omega (arith, few, held_is, small)) ∙ omega (arith, held_is))
        | inr e ↦
            let other : stamp ≢ hour = ground (arith, e) in
            let nobody =
              count-none (in_slot (hour % buckets) hour) h
                (none_in_hour hour stamp h other (s.bound hour old) s.latest) in
            rw e (omega (arith, nobody))
      ]);
      latest = (λ _. omega arith, All-map h (λ x below _. below) old);
      placed = inr refl;
      bound = λ top a. a.0;
    }
