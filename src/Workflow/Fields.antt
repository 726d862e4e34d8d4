-- ===== src/Workflow/Fields.antt =====
-- backend/src/services/workflow_parse.rs: names, keys and lists of strings, and the lists of filter patterns.
pub mod Caps
use overup.Prelude.{
  ℕ, ◌+◌, Bool, true, false, not, ◌&&◌, ◌||◌, Option, none, some, List, [], ◌∷◌, ◌++◌,
  if◌then◌else◌, ltb, leb, ◌==◌, all, filter, take, length, is_empty, Text, codes, byte_len,
}
use overup.Workflow.{Diagnostic, warning, Logged, ◌>>=◌, ◌>>◌, pure, say, say_if}
use overup.Workflow.Yaml.{
  Value, Items, Entries, items, entries, string, sequence, mapping, key_name, Yaml,
}
use overup.Workflow.Words.{is_ascii_alphabetic, is_ascii_alphanumeric}

abbrev pub max_filter_patterns : ℕ
max_filter_patterns = 50

abbrev pub max_filter_pattern_len : ℕ
max_filter_pattern_len = 256

abbrev pub max_input_name_len : ℕ
max_input_name_len = 64

abbrev pub is_word_char : ℕ → Bool
is_word_char c = is_ascii_alphanumeric c || c == b'_' || c == b'-'

-- The first character by one test, the others by another, and the length in bytes.
unfoldable pub is_ident : (ℕ → Bool) → (ℕ → Bool) → ℕ → Text → Bool
is_ident first others limit [] = false
is_ident first others limit (c ∷ s) = first c && leb (byte_len (c ∷ s)) limit && all others s

abbrev pub is_name_start : ℕ → Bool
is_name_start c = is_ascii_alphabetic c || c == b'_'

abbrev pub is_valid_identifier : Text → Bool
is_valid_identifier value =
    not (is_empty value) && leb (byte_len value) 100 && all is_word_char value

abbrev pub is_valid_job_id : Text → Bool
is_valid_job_id = is_ident is_name_start is_word_char 100

abbrev pub is_valid_input_name : Text → Bool
is_valid_input_name = is_ident is_name_start is_word_char max_input_name_len

abbrev pub is_ref_ident : Text → Bool
is_ref_ident = is_ident is_name_start (λ c. is_ascii_alphanumeric c || c == b'_') 200

abbrev pub valid_environment_name : Text → Bool
valid_environment_name =
    is_ident is_ascii_alphanumeric
      (λ c. is_ascii_alphanumeric c || c == b'.' || c == b'_' || c == b'-') 100

abbrev pub is_list_item : Text → Bool
is_list_item s = not (is_empty s) && leb (byte_len s) 200

-- The keys of a mapping that are names.
unfoldable pub key_names : Entries → List Text
key_names Entries.end = []
key_names (Entries.entry key v rest) = elim (key_name key) [
  | none ↦ key_names rest
  | some name ↦ name ∷ key_names rest
]

-- The body of `for pattern in raw.into_iter().take(MAX_FILTER_PATTERNS)`.
unfoldable pub keep_patterns : Text → List Text → Logged (List Text)
keep_patterns path [] = pure []
keep_patterns path (pattern ∷ patterns) =
    let rest = keep_patterns path patterns in
    if is_empty pattern
    then rest
    else if ltb max_filter_pattern_len (byte_len pattern)
    then (do
      say warning
          (codes "`" ++ path ++ codes "` contains a pattern longer than 256 bytes; it was ignored")
          path
      rest)
    else (do kept ← rest; pure (pattern ∷ kept))

unfoldable pub capped_patterns : Text → List Text → Logged (List Text)
capped_patterns path raw = do
  say_if (ltb max_filter_patterns (length raw)) warning
      (codes "`" ++ path ++ codes "` lists more than 50 patterns; extras are ignored") path
  keep_patterns path (take max_filter_patterns raw)

module _ (yaml : Yaml) where
  open yaml use {as_str, as_mapping, lookup}

  abbrev pub get : Entries → Text → Option Value
  get map key = lookup map (string key)

  -- `seq.iter().filter_map(Value::as_str)`
  unfoldable pub strs : Items → List Text
  strs Items.nil = []
  strs (Items.cons v rest) = elim (as_str v) [ none ↦ strs rest | some s ↦ s ∷ strs rest ]

  unfoldable pub listed : Option Value → List Text
  listed (some (string s)) = s ∷ []
  listed (some (sequence seq)) = strs seq
  listed _ = []

  unfoldable pub string_or_list : Option Value → List Text
  string_or_list value = take 50 (filter is_list_item (listed value))

  unfoldable pub filter_patterns : Option Value → Text → Logged (List Text)
  filter_patterns none path = pure []
  filter_patterns (some (string s)) path = capped_patterns path (s ∷ [])
  filter_patterns (some (sequence seq)) path = capped_patterns path (strs seq)
  filter_patterns (some _) path = do
    say warning (codes "`" ++ path ++ codes "` must be a string or a list of patterns") path
    pure []
