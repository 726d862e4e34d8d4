-- ===== src/Tickets/Tests.antt =====
-- The theorems on tickets at small stores.
use overup.Prelude.{◌≡◌, ◌≤◌, refl, some, List, [], ◌∷◌, Text, codes}
use overup.Tickets.{mint, consume}
use overup.Tickets.Uses.{Call, minting, consuming, minted, redeemed, redeemed-minted}

abbrev ticket : Text
ticket = codes "t1"

-- Any function may stand for the hash; this one puts a letter before the value.
abbrev hashed : Text → Text
hashed s = 104 ∷ s

-- The ticket is given out, used, and shown again.
abbrev replay : List Call
replay = minting 5 ticket 7 1 ∷ consuming 8 ticket 1 ∷ consuming 9 ticket 1 ∷ []

replay_lets_in_once : redeemed hashed (hashed ticket) replay [] ≡ 1
unfolding mint consume
replay_lets_in_once = refl

-- The wrong workspace burns the ticket.
wrong_workspace_burns :
    redeemed hashed
      (hashed ticket)
      (minting 5 ticket 7 1 ∷ consuming 8 ticket 2 ∷ consuming 9 ticket 1 ∷ [])
      []
    ≡ 0
unfolding mint consume
wrong_workspace_burns = refl

redeemed-minted_example :
    redeemed hashed (hashed ticket) replay [] ≤ minted hashed (hashed ticket) replay []
redeemed-minted_example = redeemed-minted hashed (hashed ticket) replay

given : (mint hashed 5 ticket 7 1 []).1 ≡ some ticket
unfolding mint
given = refl
