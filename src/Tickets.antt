-- ===== src/Tickets.antt =====
-- backend/src/services/ws_ticket.rs: the one-time tickets of browsers' web sockets. The map is a list of
-- hashes with their entries; the SHA-256 of a ticket is the parameter `hash_token`, and the value that
-- the operating system's generator gives to `mint` is an argument of it.
pub mod Store
pub mod Uses
pub mod Capacity
pub mod Lifetime
mod Tests
use overup.Prelude.{
  ℕ, Bool, not, ◌&&◌, ◌||◌, Option, none, some, List, [], ◌∷◌, ◌+◌, if◌then◌else◌, ltb, leb, ◌==◌,
  length, filter, is_empty, Text, byte_len, text_eq,
}

abbrev pub ticket_ttl_secs : ℕ
ticket_ttl_secs = 60

abbrev pub max_tickets : ℕ
max_tickets = 4096

abbrev pub max_ticket_len : ℕ
max_ticket_len = 128

pub record TicketEntry : Type 0 where
  user_id : ℕ
  workspace_id : ℕ
  expires_at : ℕ

abbrev pub Tickets : Type 0
Tickets = List (Text × TicketEntry)

-- `DashMap::get`
abbrev pub lookup : Text → Tickets → Option TicketEntry
lookup hash [] = none
lookup hash ((key, entry) ∷ rest) =
    let found = lookup hash rest in if text_eq key hash then some entry else found

-- `DashMap::remove`, the map that is left
abbrev pub remove : Text → Tickets → Tickets
remove hash [] = []
remove hash ((key, entry) ∷ rest) =
    let left = remove hash rest in if text_eq key hash then left else (key, entry) ∷ left

-- `DashMap::insert`
abbrev pub insert : Text → TicketEntry → Tickets → Tickets
insert hash entry tickets = (hash, entry) ∷ remove hash tickets

-- `retain(|_, entry| entry.expires_at > now)`
abbrev pub retain : ℕ → Tickets → Tickets
retain now [] = []
retain now ((key, entry) ∷ rest) =
    let left = retain now rest in if ltb now entry.expires_at then (key, entry) ∷ left else left

abbrev pub redeem : ℕ → ℕ → Option TicketEntry → Option ℕ
redeem now workspace none = none
redeem now workspace (some entry) =
    if leb entry.expires_at now || not (entry.workspace_id == workspace)
    then none
    else some entry.user_id

module _ (hash_token : Text → Text) where
  unfoldable pub mint : ℕ → Text → ℕ → ℕ → Tickets → Tickets × Option Text
  mint now value user workspace tickets =
      if leb max_tickets (length (retain now tickets)) then (retain now tickets, none) else (
        insert (hash_token value)
            (record {
              user_id = user;
              workspace_id = workspace;
              expires_at = now + ticket_ttl_secs;
            })
            (retain now tickets),
        some value,
      )

  unfoldable pub consume : ℕ → Text → ℕ → Tickets → Tickets × Option ℕ
  consume now raw workspace tickets =
      if is_empty raw || ltb max_ticket_len (byte_len raw)
      then (tickets, none)
      else (remove (hash_token raw) tickets, redeem now workspace (lookup (hash_token raw) tickets))
