-- ===== src/Tickets/Capacity.antt =====
-- The bound on the map of tickets (backend/src/services/ws_ticket.rs).
use overup.Prelude.{
  ℕ, ◌||◌, ◌≤◌, ◌<◌, List, [], ◌∷◌, ltb, leb, length, is_empty, Text, byte_len, arith, inl, inr,
  Bool-cases,
}
use overup.Tickets.{Tickets, max_tickets, max_ticket_len, retain, mint, consume}
use overup.Tickets.Store.{length-remove, length-retain}
use overup.Tickets.Uses.{Call, minting, consuming, run}

module _ (hash_token : Text → Text) where
  mint-capacity :
      (now : ℕ) (value : Text) (user workspace : ℕ) (ts : Tickets)
      → length ts ≤ max_tickets
      → length (mint hash_token now value user workspace ts).0 ≤ max_tickets
  unfolding mint
  mint-capacity now value user workspace ts small =
      elim (Bool-cases (leb max_tickets (length (retain now ts)))) [
        | inl e ↦ rw e (omega (arith, small, length-retain now ts))
        | inr e ↦
            let room : length (retain now ts) < max_tickets = ground (arith, e) in
            rw e (omega (arith, room, length-remove (hash_token value) (retain now ts)))
      ]

  consume-capacity :
      (now : ℕ) (raw : Text) (workspace : ℕ) (ts : Tickets)
      → length (consume hash_token now raw workspace ts).0 ≤ length ts
  unfolding consume
  consume-capacity now raw workspace ts =
      elim (Bool-cases (is_empty raw || ltb max_ticket_len (byte_len raw))) [
        | inl e ↦ rw e (omega arith)
        | inr e ↦ rw e (length-remove (hash_token raw) ts)
      ]

  -- No sequence of calls on a store within its capacity takes it beyond.
  pub run-capacity :
      (calls : List Call) (ts : Tickets)
      → length ts ≤ max_tickets
      → length (run hash_token calls ts) ≤ max_tickets
  run-capacity [] ts small = small
  run-capacity (minting now value user workspace ∷ calls) ts small =
      run-capacity calls _ (mint-capacity now value user workspace ts small)
  run-capacity (consuming now raw workspace ∷ calls) ts small =
      run-capacity calls _ (omega (arith, small, consume-capacity now raw workspace ts))
