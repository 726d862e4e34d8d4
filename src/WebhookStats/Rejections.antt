-- ===== src/WebhookStats/Rejections.antt =====
-- What a snapshot of backend/src/services/webhook_stats.rs says of the history of rejections.
use native.Mathlib.Nat.{mod-eq_of_lt}
use overup.Prelude.{
  All-map, ℕ, zero, suc, ◌+◌, ◌%◌, ◌^◌, ◌≤◌, ◌<◌, ◌≡◌, refl, sym, ◌∙◌, ap, ap₂, ◌⊎◌, inl, inr, Bool,
  true, false, ◌&&◌, Option, none, some, List, [], ◌∷◌, if◌then◌else◌, ltb, leb, ◌==◌, ==_iff, All,
  Bool-cases, arith, length, Text,
}
use overup.WebhookStats.{
  SignatureError, missing_header, malformed_header, bad_prefix, invalid_hex, mismatch, as_str, code,
  from_code, buckets, WebhookAuthStats, hour_of, restart, record_at, recent, sum_recent, cause_name,
  snapshot_at,
}
use overup.WebhookStats.Window.{
  Rejection, after, IsOrdered, count, count-le-length, in_slot, IsSlot, record_at-other,
  record_at_self, hours_below, nothing-IsSlot, keep-IsSlot, take-IsSlot, count-none,
}

-- Each slot of the counters after a history.
slots_after :
    (h : List Rejection) (slot : ℕ)
    → IsOrdered h
    → length h < 2 ^ 64
    → IsSlot h slot ((after h).bucket_hours slot) ((after h).bucket_counts slot)
slots_after [] slot o few = nothing-IsSlot slot
slots_after ((cause, at) ∷ h) slot (old, o) few = elim (Bool-cases (slot == hour_of at % buckets)) [
  | inr other ↦
      let (hours, counts) = record_at-other cause at slot (after h) other in
      rw (hours, counts)
        (keep-IsSlot (cause, at) slot _ _ h (ground (arith, other))
          (slots_after h slot o (omega (arith, few))))
  | inl same ↦
      let (hours, counts) = record_at_self cause at (after h) in
      rw ((==_iff slot (hour_of at % buckets)).0 same) (
        rw (hours, counts)
          (take-IsSlot (cause, at) _ _ h (hours_below h at old) (omega (arith, few))
            (slots_after h (hour_of at % buckets) o (omega (arith, few)))))
]

-- Within the 24 hours that end with the given one.
abbrev pub is_recent : ℕ → ℕ → Bool
is_recent now hour = ltb now (hour + buckets)

count-ext :
    (p q : ℕ → Bool) (h : List Rejection)
    → All (λ (r : Rejection). p (hour_of r.1) ≡ q (hour_of r.1)) h
    → count p h ≡ count q h
count-ext p q [] a = refl
count-ext p q (r ∷ h) (a, more) = rw (a, count-ext p q h more) refl

count-split :
    (p q t : ℕ → Bool) (h : List Rejection)
    → ((x : ℕ) → (if t x then 1 else 0) ≡ (if p x then 1 else 0) + (if q x then 1 else 0))
    → count t h ≡ count p h + count q h
count-split p q t [] f = omega arith
count-split p q t (r ∷ h) f = omega (arith, f (hour_of r.1), count-split p q t h f)

any_slot : (x now : ℕ) → (ltb (x % buckets) buckets && is_recent now x) ≡ is_recent now x
any_slot x now = ground arith

-- The recent rejections of one slot, and of the slots below a bound.
abbrev in_one : ℕ → ℕ → ℕ → Bool
in_one slot now x = x % buckets == slot && is_recent now x

abbrev in_first : ℕ → ℕ → ℕ → Bool
in_first slots now x = ltb (x % buckets) slots && is_recent now x

lap_apart : (x stamp : ℕ) → x < stamp → x % buckets ≡ stamp % buckets → x + buckets ≤ stamp
lap_apart x stamp less same = omega arith

-- In a slot whose hour is recent, the recent rejections are those of that hour.
same_hour :
    (slot stamp now x : ℕ)
    → ((stamp ≡ 0) ⊎ (stamp % buckets ≡ slot))
    → stamp ≤ now
    → now < stamp + buckets
    → (x % buckets ≡ slot → x ≤ stamp)
    → in_slot slot stamp x ≡ (x % buckets == slot && is_recent now x)
same_hour slot stamp now x placed below window latest = elim (Bool-cases (x % buckets == slot)) [
  | inr e ↦ rw e (ground arith)
  | inl e ↦
      let here : x % buckets ≡ slot = (==_iff (x % buckets) slot).0 e in
      let early = latest here in
      elim (Bool-cases (x == stamp)) [
        | inl same ↦ rw (e, same) (let eq = (==_iff x stamp).0 same in ground (arith, eq, window))
        | inr other ↦
            rw (e, other)
              (elim placed [
                | inl zero_is ↦ ground (arith, other, early, zero_is)
                | inr at ↦
                    let less : x < stamp = ground (arith, other, early) in
                    let apart = lap_apart x stamp less (here ∙ sym at) in
                    ground (arith, apart, below)
              ])
      ]
]

-- In a slot whose hour is not recent, no rejection is.
no_hour :
    (slot stamp now x : ℕ)
    → stamp + buckets ≤ now
    → (x % buckets ≡ slot → x ≤ stamp)
    → (x % buckets == slot && is_recent now x) ≡ false
no_hour slot stamp now x late latest = elim (Bool-cases (x % buckets == slot)) [
  | inr e ↦ rw e refl
  | inl e ↦
      let early = latest ((==_iff (x % buckets) slot).0 e) in rw e (ground (arith, early, late))
]

recent-count :
    (stats : WebhookAuthStats) (now slot : ℕ) (h : List Rejection)
    → All (λ (r : Rejection). hour_of r.1 ≤ now) h
    → IsSlot h slot (stats.bucket_hours slot) (stats.bucket_counts slot)
    → recent now stats slot ≡ count (in_one slot now) h
recent-count stats now slot h old s =
    let stamp = stats.bucket_hours slot in
    let below : stamp ≤ now = s.bound now old in
    let not_later : leb stamp now ≡ true = ground (arith, below) in
    elim (Bool-cases (ltb now (stamp + buckets))) [
      | inl window ↦
          let near : now < stamp + buckets = ground (arith, window) in
          rw (window, not_later)
            (s.counted
              ∙ count-ext (in_slot slot stamp) (in_one slot now) h (
                  All-map h
                    (λ r latest. same_hour slot stamp now (hour_of r.1) s.placed below near latest)
                    s.latest))
      | inr gone ↦
          let late : stamp + buckets ≤ now = ground (arith, gone) in
          rw gone (
            sym (
              count-none (in_one slot now) h (
                All-map h (λ r latest. no_hour slot stamp now (hour_of r.1) late latest) s.latest)))
    ]

in_none : (x now : ℕ) → in_first 0 now x ≡ false
in_none x now = ground arith

one_more :
    (slots now x : ℕ)
    → (if in_first (suc slots) now x then 1 else 0)
      ≡ (if in_first slots now x then 1 else 0) + (if in_one slots now x then 1 else 0)
one_more slots now x = ground arith

-- The slots below a bound hold the recent rejections whose slot is below it.
sum_recent-count :
    (slots now : ℕ) (h : List Rejection) (stats : WebhookAuthStats)
    → All (λ (r : Rejection). hour_of r.1 ≤ now) h
    → length h < 2 ^ 64
    → ((slot : ℕ) → IsSlot h slot (stats.bucket_hours slot) (stats.bucket_counts slot))
    → sum_recent slots now stats ≡ count (in_first slots now) h
unfolding sum_recent
sum_recent-count zero now h stats old few s =
    sym (count-none (in_first 0 now) h (All-map h (λ r _. in_none (hour_of r.1) now) old))
sum_recent-count (suc slots) now h stats old few s =
    let before = sum_recent-count slots now h stats old few s in
    let here = recent-count stats now slots h old (s slots) in
    let both =
      count-split (in_first slots now) (in_one slots now) (in_first (suc slots) now) h
        (λ x. one_more slots now x) in
    let small = count-le-length (in_first (suc slots) now) h in
    ap₂ (λ a b. (a + b) % 2 ^ 64) before here
    ∙ ap (λ a. a % 2 ^ 64) (sym both)
    ∙ mod-eq_of_lt (omega (arith, small, few))

code-from_code : (cause : SignatureError) → from_code (code cause) ≡ some cause
unfolding code from_code
code-from_code missing_header = refl
code-from_code malformed_header = refl
code-from_code bad_prefix = refl
code-from_code invalid_hex = refl
code-from_code mismatch = refl

record_at-cause :
    (cause : SignatureError) (at : ℕ) (stats : WebhookAuthStats)
    → (record_at cause at stats).last_cause ≡ code cause
unfolding record_at restart
record_at-cause cause at stats =
    elim (Bool-cases (stats.bucket_hours (hour_of at % buckets) == hour_of at)) [
      | inl e ↦ rw e refl
      | inr e ↦ rw e refl
    ]

abbrev pub latest_cause : List Rejection → Option Text
latest_cause [] = none
latest_cause (r ∷ h) = some (as_str r.0)

cause-after : (h : List Rejection) → cause_name (from_code (after h).last_cause) ≡ latest_cause h
unfolding from_code
cause-after [] = refl
cause-after ((cause, at) ∷ h) =
    ap (λ c. cause_name (from_code c)) (record_at-cause cause at (after h))
    ∙ ap cause_name (code-from_code cause)

-- After fewer than 2^64 rejections at times that do not go back, a snapshot at a time that is no earlier
-- counts exactly the rejections of its own hour and of the 23 hours before it, and names the cause of the
-- latest rejection, of all that there were.
pub snapshot_at-count :
    (timestamp_millis_opt : ℕ → Option ℕ) (now : ℕ) (h : List Rejection)
    → IsOrdered h
    → All (λ (r : Rejection). r.1 ≤ now) h
    → length h < 2 ^ 64
    → ((snapshot_at timestamp_millis_opt now (after h)).rejections_24h
        ≡ count (is_recent (hour_of now)) h)
      × ((snapshot_at timestamp_millis_opt now (after h)).last_cause ≡ latest_cause h)
unfolding snapshot_at
snapshot_at-count timestamp_millis_opt now h o old few = (
  sum_recent-count buckets (hour_of now) h (after h) (hours_below h now old) few
        (λ slot. slots_after h slot o few)
      ∙ count-ext (in_first buckets (hour_of now)) (is_recent (hour_of now)) h
          (All-map h (λ r _. any_slot (hour_of r.1) (hour_of now)) old),
  cause-after h,
)
