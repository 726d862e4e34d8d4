-- ===== src/Tickets/Uses.antt =====
-- What the tickets of backend/src/services/ws_ticket.rs are good for, over any sequence of calls.
use overup.Prelude.{
  ℕ, Bool, true, false, ◌&&◌, ◌||◌, ◌≤◌, ◌+◌, ◌≡◌, Option, none, some, List, [], ◌∷◌, ltb, leb,
  length, is_empty, Text, byte_len, text_eq, text_eq_iff, arith, inl, inr, Bool-cases,
}
use overup.Tickets.{
  Tickets, max_tickets, max_ticket_len, lookup, remove, retain, redeem, mint, consume,
}
use overup.Tickets.Store.{one, count, count-remove_same, count-remove, count-retain, lookup-count}

abbrev pub is_some {ℓ} : {A : Type ℓ} → Option A → Bool
is_some none = false
is_some (some a) = true

one-le : (b : Bool) → one b ≤ 1
one-le true = omega arith
one-le false = omega arith

one-false : (a b : Bool) → b ≡ false → one (a && b) ≡ 0
one-false a b e = ground arith

-- A call of the store, with the time at which it is made.
pub data Call : Type 0 where
  minting : (now : ℕ) (value : Text) (user workspace : ℕ) → Call
  consuming : (now : ℕ) (raw : Text) (workspace : ℕ) → Call

module _ (hash_token : Text → Text) where
  abbrev pub step : Call → Tickets → Tickets
  step (minting now value user workspace) ts = (mint hash_token now value user workspace ts).0
  step (consuming now raw workspace) ts = (consume hash_token now raw workspace ts).0

  -- Whether a call gives out a ticket with the hash.
  abbrev pub mints : Text → Call → Tickets → Bool
  mints h (minting now value user workspace) ts =
      is_some (mint hash_token now value user workspace ts).1 && text_eq (hash_token value) h
  mints h (consuming now raw workspace) ts = false

  -- Whether a call lets in the holder of a ticket with the hash.
  abbrev pub redeems : Text → Call → Tickets → Bool
  redeems h (minting now value user workspace) ts = false
  redeems h (consuming now raw workspace) ts =
      is_some (consume hash_token now raw workspace ts).1 && text_eq (hash_token raw) h

  abbrev pub run : List Call → Tickets → Tickets
  run [] ts = ts
  run (call ∷ calls) ts = run calls (step call ts)

  abbrev pub minted : Text → List Call → Tickets → ℕ
  minted h [] ts = 0
  minted h (call ∷ calls) ts = one (mints h call ts) + minted h calls (step call ts)

  abbrev pub redeemed : Text → List Call → Tickets → ℕ
  redeemed h [] ts = 0
  redeemed h (call ∷ calls) ts = one (redeems h call ts) + redeemed h calls (step call ts)

  mint-count :
      (h : Text) (now : ℕ) (value : Text) (user workspace : ℕ) (ts : Tickets)
      → count h (mint hash_token now value user workspace ts).0
        ≤ count h ts + one (mints h (minting now value user workspace) ts)
  unfolding mint
  mint-count h now value user workspace ts =
      elim (Bool-cases (leb max_tickets (length (retain now ts)))) [
        | inl e ↦ rw e (omega (arith, count-retain h now ts))
        | inr e ↦ rw e (
            omega (arith, count-retain h now ts, count-remove h (hash_token value) (retain now ts)))
      ]

  redeemed_same :
      (h : Text) (now workspace : ℕ) (ts : Tickets)
      → one (is_some (redeem now workspace (lookup h ts)) && text_eq h h) + count h (remove h ts)
        ≤ count h ts
  redeemed_same h now workspace ts = elim (lookup-count h ts) [
    | inl e ↦ rw e (omega (arith, count-remove_same h ts))
    | inr p ↦ omega (
      arith,
      p,
      count-remove_same h ts,
      one-le (is_some (redeem now workspace (lookup h ts)) && text_eq h h),
    )
  ]

  redeemed_once :
      (h hash : Text) (now workspace : ℕ) (ts : Tickets)
      → one (is_some (redeem now workspace (lookup hash ts)) && text_eq hash h)
          + count h (remove hash ts)
        ≤ count h ts
  redeemed_once h hash now workspace ts = elim (Bool-cases (text_eq hash h)) [
    | inl e ↦ rw ((text_eq_iff hash h).0 e) (redeemed_same h now workspace ts)
    | inr e ↦ omega (
      arith,
      count-remove h hash ts,
      one-false (is_some (redeem now workspace (lookup hash ts))) (text_eq hash h) e,
    )
  ]

  consume-count :
      (h : Text) (now : ℕ) (raw : Text) (workspace : ℕ) (ts : Tickets)
      → one (redeems h (consuming now raw workspace) ts)
          + count h (consume hash_token now raw workspace ts).0
        ≤ count h ts
  unfolding consume
  consume-count h now raw workspace ts =
      elim (Bool-cases (is_empty raw || ltb max_ticket_len (byte_len raw))) [
        | inl e ↦ rw e (omega arith)
        | inr e ↦ rw e (redeemed_once h (hash_token raw) now workspace ts)
      ]

  step-count :
      (h : Text) (call : Call) (ts : Tickets)
      → one (redeems h call ts) + count h (step call ts) ≤ count h ts + one (mints h call ts)
  step-count h (minting now value user workspace) ts =
      omega (arith, mint-count h now value user workspace ts)
  step-count h (consuming now raw workspace) ts =
      omega (arith, consume-count h now raw workspace ts)

  run-count :
      (h : Text) (calls : List Call) (ts : Tickets)
      → redeemed h calls ts + count h (run calls ts) ≤ minted h calls ts + count h ts
  run-count h [] ts = omega arith
  run-count h (call ∷ calls) ts =
      omega (arith, step-count h call ts, run-count h calls (step call ts))

  -- In any sequence of calls on an empty store, at any times, the holders of a ticket are let in at most
  -- as often as tickets with its hash have been given out.
  pub redeemed-minted : (h : Text) (calls : List Call) → redeemed h calls [] ≤ minted h calls []
  redeemed-minted h calls = omega (arith, run-count h calls [])
