-- ===== src/Protocol.antt =====
-- protocol/src/lib.rs: `normalize_relative_path`, the one check of working directories that the server and
-- the runner share. A byte of a character outside ASCII is never in the permitted set, so that the test
-- of the bytes is one of the characters.
pub mod Paths
mod Tests
use overup.Prelude.{
  ℕ, Bool, true, false, not, ◌&&◌, ◌||◌, Option, none, some, List, [], ◌∷◌, if◌then◌else◌, ltb, leb,
  ◌==◌, length, all, is_empty, Text, byte_len,
}

abbrev pub max_relative_path_bytes : ℕ
max_relative_path_bytes = 255

abbrev pub max_relative_path_segments : ℕ
max_relative_path_segments = 32

-- `strip_prefix("./").unwrap_or(value)`
abbrev pub strip_dot_slash : Text → Text
strip_dot_slash [] = []
strip_dot_slash (c ∷ []) = c ∷ []
strip_dot_slash (c ∷ d ∷ s) = if c == b'.' && d == b'/' then s else c ∷ d ∷ s

-- `while let Some(stripped) = path.strip_suffix('/')`
abbrev pub strip_slashes : Text → Text
strip_slashes [] = []
strip_slashes (c ∷ s) =
    let rest = strip_slashes s in if is_empty rest && c == b'/' then [] else c ∷ rest

-- `split('/')`: the first segment, and the others.
abbrev pub split_first : Text → Text × List Text
split_first [] = ([], [])
split_first (c ∷ s) =
    let (segment, more) = split_first s in
    if c == b'/' then ([], segment ∷ more) else (c ∷ segment, more)

abbrev pub segments_of : Text → List Text
segments_of path = let (segment, more) = split_first path in segment ∷ more

abbrev pub is_dot : Text → Bool
is_dot (c ∷ []) = c == b'.'
is_dot _ = false

abbrev pub is_dot_dot : Text → Bool
is_dot_dot (c ∷ d ∷ []) = c == b'.' && d == b'.'
is_dot_dot _ = false

abbrev pub is_path_char : ℕ → Bool
is_path_char c =
    (leb b'0' c && leb c b'9')
    || (leb b'A' c && leb c b'Z')
    || (leb b'a' c && leb c b'z')
    || c == b'.'
    || c == b'_'
    || c == b'-'

abbrev pub is_safe_segment : Text → Bool
is_safe_segment s = not (is_empty s || is_dot s || is_dot_dot s) && all is_path_char s

unfoldable pub normalize_relative_path : Text → Option Text
normalize_relative_path value =
    let path = strip_slashes (strip_dot_slash value) in
    if is_empty path || ltb max_relative_path_bytes (byte_len path)
    then none
    else if ltb max_relative_path_segments (length (segments_of path))
    then none
    else if all is_safe_segment (segments_of path)
    then some path
    else none
