-- ===== src/LogHub.antt =====
-- backend/src/services/log_hub.rs: the masking of secrets in the log of a job, with the tail of each chunk
-- that is held back so that a secret that two chunks share is still found. The entry of one job in the
-- map `masks` is the state; a job without an entry has none.
pub mod Replace
pub mod Held
pub mod Masked
pub mod Log
pub mod Attempts
mod Tests
use overup.Prelude.{
  ℕ, zero, suc, ◌+◌, ◌-◌, Bool, true, false, not, ◌&&◌, ◌||◌, Option, none, some, List, [], ◌∷◌,
  ◌++◌, if◌then◌else◌, ltb, leb, ◌==◌, filter, length, is_empty, Text, codes, char_len, byte_len,
}

abbrev pub min_mask_len : ℕ
min_mask_len = 6

abbrev pub stars : Text
stars = b'*' ∷ b'*' ∷ b'*' ∷ []

abbrev pub newline : ℕ
newline = 10

pub data Stream : Type 0 where
  stdout stderr system : Stream

-- `last_seq` starts at -1 and is only compared and incremented: `next_seq` is one more. `carry_place`
-- is the section of the carry, its step and phase.
pub record MaskState : Type 0 where
  pub values : List Text
  pub max_len : ℕ
  pub carry : Text
  pub carry_stream : Stream
  pub carry_place : Option ℕ × Option Text
  pub next_seq : ℕ
  pub generation : ℕ

abbrev pub fresh : MaskState
fresh = record {
  values = [];
  max_len = 0;
  carry = [];
  carry_stream = stdout;
  carry_place = (none, none);
  next_seq = 0;
  generation = 0;
}

pub record Chunk : Type 0 where
  pub seq : ℕ
  pub stream : Stream
  pub text : Text
  pub place : Option ℕ × Option Text

-- `str::starts_with` and `str::contains`
abbrev pub starts_with : Text → Text → Bool
starts_with [] s = true
starts_with (p ∷ ps) [] = false
starts_with (p ∷ ps) (c ∷ s) = p == c && starts_with ps s

abbrev pub occurs : Text → Text → Bool
occurs value [] = is_empty value
occurs value (c ∷ s) = starts_with value (c ∷ s) || occurs value s

-- `str::replace(value, "***")` for a value that is not empty: at a match the characters of the value,
-- `skip` of which are still to come, give way to the stars.
abbrev pub replace_from : Text → ℕ → Text → Text
replace_from value skip [] = []
replace_from value (suc skip) (c ∷ s) = replace_from value skip s
replace_from value zero (c ∷ s) =
    let hit = replace_from value (length value - 1) s in
    let miss = replace_from value zero s in
    if starts_with value (c ∷ s) then stars ++ hit else c ∷ miss

abbrev pub apply_masks : List Text → Text → Text
apply_masks [] text = text
apply_masks (value ∷ values) text =
    apply_masks values (if occurs value text then replace_from value 0 text else text)

abbrev pub max : ℕ → ℕ → ℕ
max m n = if ltb m n then n else m

abbrev pub longest : List Text → ℕ
longest [] = 0
longest (v ∷ values) = max (byte_len v) (longest values)

abbrev pub entry : Option MaskState → MaskState
entry none = fresh
entry (some st) = st

-- The values that are long enough.
abbrev pub kept : List Text → List Text
kept values = filter (λ v. leb min_mask_len (byte_len v)) values

unfoldable pub register_masks : List Text → Option MaskState → Option MaskState
register_masks values st =
    let old = entry st in
    if is_empty (kept values)
    then st
    else some (record old {
      max_len = max old.max_len (longest (kept values));
      values = old.values ++ kept values;
      generation = old.generation + 1;
    })

-- `floor_char_boundary` and the split there: the longest prefix of at most `at` bytes.
abbrev pub split_floor : ℕ → Text → Text × Text
split_floor at [] = ([], [])
split_floor at (c ∷ s) =
    let (before, after) = split_floor (at - char_len c) s in
    if ltb at (char_len c) then ([], c ∷ s) else (c ∷ before, after)

-- The text up to its last line feed, and what is behind it.
abbrev pub split_line : Text → Text × Text
split_line [] = ([], [])
split_line (c ∷ s) =
    let (before, after) = split_line s in
    if is_empty before && not (c == newline) then ([], c ∷ s) else (c ∷ before, after)

-- Where `mask_chunk` cuts what it has masked: the part to emit, and the carry.
abbrev pub hold_back : ℕ → Text → Text × Text
hold_back max_len masked =
    let (early, tail) = split_floor (byte_len masked - (max_len - 1)) masked in
    let (lines, rest) = split_line tail in (early ++ lines, rest)

abbrev pub mask_state :
    ℕ → Stream → Text → Option ℕ × Option Text → MaskState → MaskState × Option Chunk
mask_state seq stream text place st =
    let whole = is_empty st.carry in
    let (out, carry) = hold_back st.max_len (apply_masks st.values (st.carry ++ text)) in
    if ltb seq st.next_seq then (st, none) else (
      record st { next_seq = seq + 1; carry = carry; carry_stream = stream; carry_place = place },
      some (record {
        seq = seq;
        stream = if whole then stream else st.carry_stream;
        text = out;
        place = if whole then place else st.carry_place;
      }),
    )

-- Without masks a chunk passes as it is.
unfoldable pub mask_chunk :
    ℕ → Stream → Text → Option ℕ × Option Text → Option MaskState → Option MaskState × Option Chunk
mask_chunk seq stream text place none =
    (none, some (record { seq = seq; stream = stream; text = text; place = place }))
mask_chunk seq stream text place (some st) =
    let (st', chunk) = mask_state seq stream text place st in (some st', chunk)

-- `finish_job`, its first half: the carry that is flushed under the next number, and the generation that
-- the delayed removal looks for.
unfoldable pub finish_job : Option MaskState → Option MaskState × Option Chunk
finish_job none = (none, none)
finish_job (some st) = if is_empty st.carry then (some st, none) else (
  some (record st { carry = []; next_seq = st.next_seq + 1 }),
  some (record {
    seq = st.next_seq;
    stream = st.carry_stream;
    text = st.carry;
    place = st.carry_place;
  }),
)

-- The delayed removal: only if nothing has been registered since.
unfoldable pub clear_later : ℕ → Option MaskState → Option MaskState
clear_later generation none = none
clear_later generation (some st) = if st.generation == generation then none else some st
