-- ===== src/Tickets/Store.antt =====
-- What the map of tickets (backend/src/services/ws_ticket.rs) keeps: its size, and how often a hash
-- stands in it.
use overup.Prelude.{
  ℕ, Bool, ◌≤◌, ◌<◌, ◌+◌, ◌≡◌, refl, none, [], ◌∷◌, if◌then◌else◌, length, Text, text_eq, arith,
  ◌⊎◌, inl, inr, Bool-cases,
}
use overup.Tickets.{Tickets, lookup, remove, retain}

abbrev pub one : Bool → ℕ
one b = if b then 1 else 0

-- How often a hash stands in the map.
abbrev pub count : Text → Tickets → ℕ
count hash [] = 0
count hash ((key, entry) ∷ rest) = one (text_eq key hash) + count hash rest

pub length-remove : (hash : Text) (ts : Tickets) → length (remove hash ts) ≤ length ts
length-remove hash [] = omega arith
length-remove hash ((key, entry) ∷ rest) = ground (arith, length-remove hash rest)

pub count-remove_same : (hash : Text) (ts : Tickets) → count hash (remove hash ts) ≡ 0
count-remove_same hash [] = refl
count-remove_same hash ((key, entry) ∷ rest) = ground (arith, count-remove_same hash rest)

pub count-remove : (h hash : Text) (ts : Tickets) → count h (remove hash ts) ≤ count h ts
count-remove h hash [] = omega arith
count-remove h hash ((key, entry) ∷ rest) = ground (arith, count-remove h hash rest)

pub count-retain : (h : Text) (now : ℕ) (ts : Tickets) → count h (retain now ts) ≤ count h ts
count-retain h now [] = omega arith
count-retain h now ((key, entry) ∷ rest) = ground (arith, count-retain h now rest)

pub length-retain : (now : ℕ) (ts : Tickets) → length (retain now ts) ≤ length ts
length-retain now [] = omega arith
length-retain now ((key, entry) ∷ rest) = ground (arith, length-retain now rest)

pub lookup-count : (h : Text) (ts : Tickets) → (lookup h ts ≡ none) ⊎ (0 < count h ts)
lookup-count h [] = inl refl
lookup-count h ((key, entry) ∷ rest) = elim (Bool-cases (text_eq key h)) [
  | inl e ↦ rw e (inr (omega arith))
  | inr e ↦ rw e (elim (lookup-count h rest) [ inl n ↦ inl n | inr p ↦ inr (omega (arith, p)) ])
]
