-- ===== src/Workflow/Scripts.antt =====
-- backend/src/services/workflow_parse.rs, `script_ref`: the scripts among the words of a command.
use overup.Prelude.{
  Bool, not, ◌&&◌, ◌||◌, ℕ, Option, none, some, List, [], ◌∷◌, ◌++◌, if◌then◌else◌, leb, ltb, ◌==◌,
  any, Text, codes, byte_len,
}
use overup.Protocol.{normalize_relative_path, max_relative_path_bytes}
use overup.Workflow.Words.{starts_with, ends_with}

abbrev pub is_shell_char : ℕ → Bool
is_shell_char c = any (λ d. d == c) (codes "$*?{}()`'|;&<>") || c == 34

abbrev pub script_extensions : List Text
script_extensions =
    codes ".sh"
    ∷ codes ".bash"
    ∷ codes ".ps1"
    ∷ codes ".py"
    ∷ codes ".js"
    ∷ codes ".ts"
    ∷ codes ".mjs"
    ∷ codes ".cjs"
    ∷ codes ".rb"
    ∷ codes ".pl"
    ∷ []

abbrev pub is_candidate : Text → Bool
is_candidate token =
    starts_with (codes "./") token
    || any (λ ext. ltb (byte_len ext) (byte_len token) && ends_with ext token) script_extensions

abbrev pub join : Option Text → Text → Text
join none path = path
join (some base) path = base ++ (b'/' ∷ path)

abbrev pub checked_join : Option Text → Option Text → Option Text
checked_join base none = none
checked_join base (some path) =
    if leb (byte_len (join base path)) max_relative_path_bytes then some (join base path) else none

unfoldable pub script_ref : Text → Option Text → Option Text
script_ref token base =
    if any is_shell_char token
    then none
    else if not (is_candidate token)
    then none
    else checked_join base (normalize_relative_path token)
