-- ===== src/Glob.antt =====
-- backend/src/services/trigger_eval.rs: the filter globs of `on:` conditions. `tokenize` turns a
-- pattern into tokens with quantifiers, and `glob_match` runs the tokens over a set of positions.
pub mod Meaning
pub mod Positions
pub mod Steps
pub mod Matching
pub mod Tokens
mod Tests
use overup.Prelude.{
  ℕ, zero, suc, ◌+◌, Bool, true, false, not, ◌&&◌, ◌||◌, Option, none, some, List, [], ◌∷◌, ◌++◌,
  reverse, ltb, leb, ◌==◌, if◌then◌else◌, length, get_elem?, set, drop, replicate, any, is_empty,
  Text, byte_len,
}

abbrev pub max_pattern_len : ℕ
max_pattern_len = 256

abbrev pub max_value_len : ℕ
max_value_len = 1024

abbrev pub backslash : ℕ
backslash = 92

abbrev pub Ranges : Type 0
Ranges = List (ℕ × ℕ)

pub data Tok : Type 0 where
  lit : ℕ → Tok
  class : Ranges → Tok
  any_no_slash any_all : Tok

pub data Quant : Type 0 where
  one zero_or_one one_or_more : Quant

abbrev pub Token : Type 0
Token = Tok × Quant

abbrev snoc {ℓ} : {A : Type ℓ} → List A → A → List A
snoc xs x = xs ++ x ∷ []

-- The loop of `parse_class`; `i` counts the characters read, and what is left stands for `rest[i..]`.
unfoldable pub class_from : Ranges → ℕ → Text → Option (Ranges × ℕ)
class_from ranges i [] = none
class_from ranges i (c ∷ dash ∷ end ∷ rest) =
    let range = class_from (if leb c end then snoc ranges (c, end) else ranges) (i + 3) rest in
    let single = class_from (snoc ranges (c, c)) (i + 1) (dash ∷ end ∷ rest) in
    if c == b']'
    then if is_empty ranges then none else some (ranges, i + 1)
    else if dash == b'-' && not (end == b']')
    then range
    else single
class_from ranges i (c ∷ rest) =
    let single = class_from (snoc ranges (c, c)) (i + 1) rest in
    if c == b']' then if is_empty ranges then none else some (ranges, i + 1) else single

unfoldable pub parse_class : Text → Option (Ranges × ℕ)
unfolding class_from
parse_class rest = class_from [] 0 rest

-- The arms `?` and `+`: the last token, at the head of the reversed list, takes the quantifier if it
-- has none yet, and otherwise the character stands for itself.
unfoldable pub quantify : Quant → ℕ → List Token → List Token
quantify q c ((t, one) ∷ tokens) = (t, q) ∷ tokens
quantify q c tokens = (lit c, one) ∷ tokens

-- The arms of `tokenize` that look ahead: an escape, one or two stars, a class.
unfoldable pub escape : List Token → Text → List Token × Text
escape tokens [] = ((lit backslash, one) ∷ tokens, [])
escape tokens (x ∷ xs) = ((lit x, one) ∷ tokens, xs)

unfoldable pub stars : List Token → Text → List Token × Text
stars tokens [] = ((any_no_slash, one) ∷ tokens, [])
stars tokens (x ∷ xs) =
    if x == b'*' then ((any_all, one) ∷ tokens, xs) else ((any_no_slash, one) ∷ tokens, x ∷ xs)

unfoldable pub bracket : List Token → Text → Option (Ranges × ℕ) → List Token × Text
bracket tokens rest none = ((lit b'[', one) ∷ tokens, rest)
bracket tokens rest (some (ranges, consumed)) = ((class ranges, one) ∷ tokens, drop consumed rest)

-- One round of the loop of `tokenize` at the character `c`: the tokens so far, last first, and the
-- text that is left to read.
unfoldable pub token_step : ℕ → Text → List Token → List Token × Text
unfolding quantify parse_class escape stars bracket
token_step c rest tokens =
    if c == backslash
    then escape tokens rest
    else if c == b'*'
    then stars tokens rest
    else if c == b'['
    then bracket tokens rest (parse_class rest)
    else if c == b'?'
    then (quantify zero_or_one b'?' tokens, rest)
    else if c == b'+'
    then (quantify one_or_more b'+' tokens, rest)
    else ((lit c, one) ∷ tokens, rest)

-- The loop; each round reads at least one character, so `length` is fuel enough (Tokens).
unfoldable pub tokens_from : ℕ → List Token → Text → Option (List Token)
tokens_from fuel tokens [] = some (reverse tokens)
tokens_from zero tokens (c ∷ rest) = none
tokens_from (suc fuel) tokens (c ∷ rest) =
    let (more, left) = token_step c rest tokens in tokens_from fuel more left

abbrev tokens_or : Option (List Token) → List Token
tokens_or none = []
tokens_or (some tokens) = tokens

unfoldable pub tokenize : Text → List Token
unfolding tokens_from token_step
tokenize pattern = tokens_or (tokens_from (length pattern) [] pattern)

-- `matches_at` for one character; a star has no single-character test.
unfoldable pub accepts : Tok → ℕ → Bool
accepts (lit l) c = c == l
accepts (class ranges) c = any (λ r. leb r.0 c && leb c r.1) ranges
accepts _ c = false

-- Whether a star may run over the character.
unfoldable pub crosses : Tok → ℕ → Bool
crosses any_all c = true
crosses _ c = not (c == b'/')

abbrev pub Positions : Type 0
Positions = List Bool

-- The inner loop of a star over `value[start..]`, with `k = start + offset`.
unfoldable pub run_from : (ℕ → Bool) → ℕ → Text → Positions → Positions
run_from test k [] next = next
run_from test k (c ∷ s) next =
    let further = run_from test (suc k) s (set next (suc k) true) in
    if test c then further else next

-- What one live start adds to `next`, for each kind of token and quantifier. The suffix is
-- `value[start..]`. `OneOrMore` walks on while the characters match, which is the loop of a star.
unfoldable pub advance : Token → ℕ → Text → Positions → Positions
unfolding run_from accepts crosses
advance (any_all, q) start s next = run_from (crosses any_all) start s (set next start true)
advance (any_no_slash, q) start s next =
    run_from (crosses any_no_slash) start s (set next start true)
advance (t, one) start [] next = next
advance (t, one) start (c ∷ s) next = if accepts t c then set next (suc start) true else next
advance (t, zero_or_one) start [] next = set next start true
advance (t, zero_or_one) start (c ∷ s) next =
    if accepts t c then set (set next start true) (suc start) true else set next start true
advance (t, one_or_more) start s next = run_from (accepts t) start s next

-- The loop over the starts, from `start` on: `positions[start..]` and `value[start..]`.
unfoldable pub sweep : Token → ℕ → Positions → Text → Positions → Positions
unfolding advance
sweep t start [] s next = next
sweep t start (live ∷ positions) s next =
    sweep t (suc start) positions (drop 1 s) (if live then advance t start s next else next)

abbrev pub is_live : Option Bool → Bool
is_live none = false
is_live (some live) = live

-- The loop over the tokens, with the early return when no position is live, and the final read.
unfoldable pub tokens_match : List Token → Positions → Text → Bool
unfolding sweep
tokens_match [] positions value = is_live (get_elem? positions (length value))
tokens_match (t ∷ tokens) positions value =
    let next = sweep t 0 positions value (replicate (suc (length value)) false) in
    let rest = tokens_match tokens next value in if any (λ p. p) next then rest else false

unfoldable pub glob_match : Text → Text → Bool
glob_match pattern value =
    if ltb max_pattern_len (byte_len pattern) || ltb max_value_len (byte_len value)
    then false
    else tokens_match (tokenize pattern) (true ∷ replicate (length value) false) value
