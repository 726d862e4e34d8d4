-- ===== src/Tickets/Lifetime.antt =====
-- What `consume` makes of a ticket that `mint` gave out (backend/src/services/ws_ticket.rs).
use mathlib.Core.Bool.{true≢false}
use overup.Prelude.{
  ℕ, false, ◌&&◌, ◌≤◌, ◌+◌, ◌≡◌, refl, sym, ◌∙◌, ap, none, some, if◌then◌else◌, ltb, leb, ◌==◌,
  length, is_empty, Text, byte_len, text_eq_refl, arith, inl, inr, Bool-cases,
}
use overup.Tickets.{
  Tickets, TicketEntry, max_tickets, max_ticket_len, ticket_ttl_secs, lookup, retain, redeem, mint,
  consume,
}
use overup.Tickets.Uses.{is_some}

redeem_lem :
    (now workspace : ℕ) (entry : TicketEntry)
    → redeem now workspace (some entry) ≡ (
        if ltb now entry.expires_at && entry.workspace_id == workspace
        then some entry.user_id
        else none)
redeem_lem now workspace entry = ground arith

module _ (hash_token : Text → Text) where
  mint-lookup :
      (now : ℕ) (value : Text) (user workspace : ℕ) (ts : Tickets)
      → (mint hash_token now value user workspace ts).1 ≡ some value
      → lookup (hash_token value) (mint hash_token now value user workspace ts).0
        ≡ some (record {
          user_id = user;
          workspace_id = workspace;
          expires_at = now + ticket_ttl_secs;
        })
  unfolding mint
  mint-lookup now value user workspace ts given =
      elim (Bool-cases (leb max_tickets (length (retain now ts)))) [
        | inl e ↦ absurd (true≢false (sym (ap is_some (rw e at given))))
        | inr e ↦ rw e (rw (text_eq_refl (hash_token value)) refl)
      ]

  consume-redeem :
      (now : ℕ) (raw : Text) (workspace : ℕ) (ts : Tickets)
      → is_empty raw ≡ false
      → byte_len raw ≤ max_ticket_len
      → (consume hash_token now raw workspace ts).1
        ≡ redeem now workspace (lookup (hash_token raw) ts)
  unfolding consume
  consume-redeem now raw workspace ts nonempty short =
      let fits : ltb max_ticket_len (byte_len raw) ≡ false = ground arith in
      rw (nonempty, fits) refl

  -- A ticket that `mint` gives out lets its user in exactly before its time is over and in its own
  -- workspace, when it is not empty and not longer than tickets may be.
  pub mint-consume :
      (now later : ℕ) (value : Text) (user workspace asked : ℕ) (ts : Tickets)
      → (mint hash_token now value user workspace ts).1 ≡ some value
      → is_empty value ≡ false
      → byte_len value ≤ max_ticket_len
      → (consume hash_token later value asked (mint hash_token now value user workspace ts).0).1
        ≡ (if ltb later (now + ticket_ttl_secs) && workspace == asked then some user else none)
  mint-consume now later value user workspace asked ts given nonempty short =
      consume-redeem later value asked _ nonempty short
      ∙ ap (redeem later asked) (mint-lookup now value user workspace ts given)
      ∙ redeem_lem later asked _
