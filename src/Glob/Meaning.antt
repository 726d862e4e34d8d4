-- ===== src/Glob/Meaning.antt =====
-- What the tokens of a filter glob mean (backend/src/services/trigger_eval.rs), stated on texts with
-- no positions in it.
use overup.Prelude.{ℕ, Bool, true, List, [], ◌∷◌, ◌≡◌, ◌⊎◌, Text}
use overup.Glob.{Tok, any_no_slash, any_all, one, zero_or_one, one_or_more, Token, accepts, crosses}

-- A run of characters that pass the test, from one suffix of the text to a later one.
pub data Run (test : ℕ → Bool) : Text → Text → Type 0 where
  stop : {s : Text} → Run test s s
  more : {c : ℕ} {s t : Text} → test c ≡ true → Run test s t → Run test (c ∷ s) t

abbrev pub EatsOne : Tok → Text → Text → Type 0
EatsOne t s s' = (c : ℕ) × (s ≡ c ∷ s') × (accepts t c ≡ true)

abbrev pub EatsMany : (ℕ → Bool) → Text → Text → Type 0
EatsMany test s s' = (c : ℕ) × (m : Text) × (s ≡ c ∷ m) × (test c ≡ true) × Run test m s'

-- What one token may take off the front of a text.
abbrev pub Eats : Token → Text → Text → Type 0
Eats (any_all, q) s s' = Run (crosses any_all) s s'
Eats (any_no_slash, q) s s' = Run (crosses any_no_slash) s s'
Eats (t, one) s s' = EatsOne t s s'
Eats (t, zero_or_one) s s' = (s ≡ s') ⊎ EatsOne t s s'
Eats (t, one_or_more) s s' = EatsMany (accepts t) s s'

-- The tokens, one after the other, take the whole text.
abbrev pub Matches : List Token → Text → Type 0
Matches [] s = s ≡ []
Matches (t ∷ ts) s = (s' : Text) × Eats t s s' × Matches ts s'
