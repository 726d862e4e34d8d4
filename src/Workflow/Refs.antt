-- ===== src/Workflow/Refs.antt =====
-- backend/src/services/workflow_parse.rs: the names of secrets and variables that a workflow refers to, and the
-- names of its environments.
use overup.Prelude.{
  Bool, true, false, not, ◌&&◌, ◌||◌, ℕ, zero, suc, Option, none, some, List, [], ◌∷◌, ◌++◌,
  if◌then◌else◌, leb, ltb, ◌==◌, ◌+◌, any, map, length, Text, codes, contains, text_eq,
}
use overup.Workflow.{ParsedJob}
use overup.Workflow.Words.{is_ascii_alphanumeric, starts_with, split_once, trim_start, take_while}
use overup.Workflow.Fields.{is_ref_ident, valid_environment_name}

abbrev pub max_refs : ℕ
max_refs = 100

-- The order of strings, and `sort`.
unfoldable pub text_leb : Text → Text → Bool
text_leb [] t = true
text_leb (c ∷ s) [] = false
text_leb (c ∷ s) (d ∷ t) = ltb c d || (c == d && text_leb s t)

unfoldable pub insert_sorted : Text → List Text → List Text
insert_sorted t [] = t ∷ []
insert_sorted t (u ∷ us) =
    let rest = insert_sorted t us in if text_leb t u then t ∷ u ∷ us else u ∷ rest

unfoldable pub sort : List Text → List Text
sort [] = []
sort (t ∷ ts) = insert_sorted t (sort ts)

abbrev pub is_quote : ℕ → Bool
is_quote c = c == 39 || c == 34

abbrev pub checked_ident : Text → Option Text
checked_ident name = if is_ref_ident name then some name else none

-- What stands between the quotes of a bracket, and what follows them.
unfoldable pub quoted : Text → Option (Text × Text)
quoted [] = none
quoted (c ∷ inner) = if is_quote c then split_once (c ∷ []) inner else none

-- `.NAME`, or `['NAME']`
unfoldable pub extract_ref_name : Text → Option Text
extract_ref_name [] = none
extract_ref_name (c ∷ rest) =
    if c == b'.'
    then checked_ident (take_while (λ d. is_ascii_alphanumeric d || d == b'_') rest)
    else if c == b'['
    then elim (quoted (trim_start rest)) [
      | none ↦ none
      | some (name, tail) ↦
          if starts_with (b']' ∷ []) (trim_start tail) then checked_ident name else none
    ]
    else none

abbrev pub last_of : Option ℕ → Text → Option ℕ
last_of prev [] = prev
last_of prev (c ∷ s) = last_of (some c) s

-- `mysecrets.X` and `x.vars.Y` are no references.
abbrev pub is_bounded : Option ℕ → Bool
is_bounded none = true
is_bounded (some c) = not (is_ascii_alphanumeric c || c == b'_' || c == b'.')

abbrev pub add_ref : List Text → Option Text → List Text → List Text
add_ref exclude none refs = refs
add_ref exclude (some name) refs =
    if not (contains exclude name) && not (contains refs name) then refs ++ name ∷ [] else refs

-- The loop over one expression, on fuel; it stops when there are enough names.
unfoldable pub scan_expr : ℕ → Text → List Text → Option ℕ → Text → List Text → List Text
scan_expr zero context exclude prev expr refs = refs
scan_expr (suc fuel) context exclude prev expr refs =
    if leb max_refs (length refs) then refs else elim (split_once context expr) [
      | none ↦ refs
      | some (before, after) ↦
          scan_expr fuel context exclude (last_of prev (before ++ context)) after (
            if is_bounded (last_of prev before)
            then add_ref exclude (extract_ref_name after) refs
            else refs)
    ]

-- The loop over the blocks, on fuel.
unfoldable pub scan_blocks : ℕ → Text → List Text → Text → List Text → List Text
scan_blocks zero context exclude rest refs = refs
scan_blocks (suc fuel) context exclude rest refs =
    if leb max_refs (length refs) then refs else elim (split_once (codes "${{") rest) [
      | none ↦ refs
      | some (_, inner) ↦ elim (split_once (codes "}}") inner) [
        | none ↦ refs
        | some (expr, after) ↦
            scan_blocks fuel context exclude after
              (scan_expr (suc (length expr)) context exclude none expr refs)
      ]
    ]

unfoldable pub scan_context_refs : Text → Text → List Text → List Text
scan_context_refs content context exclude =
    sort (scan_blocks (suc (length content)) context exclude content [])

abbrev pub scan_secret_refs : Text → List Text
scan_secret_refs content = scan_context_refs content (codes "secrets") (codes "GITHUB_TOKEN" ∷ [])

abbrev pub scan_var_refs : Text → List Text
scan_var_refs content = scan_context_refs content (codes "vars") []

abbrev pub ascii_lower : ℕ → ℕ
ascii_lower c = if leb b'A' c && leb c b'Z' then c + 32 else c

abbrev pub same_name : Text → Text → Bool
same_name s t = text_eq (map ascii_lower s) (map ascii_lower t)

-- The first casing of each environment is kept.
unfoldable pub collect_environments : List Text → List ParsedJob → List Text
collect_environments names [] = names
collect_environments names (job ∷ jobs) =
    collect_environments
      (elim job.environment [
        | none ↦ names
        | some name ↦
            if valid_environment_name name && not (any (λ n. same_name n name) names)
            then names ++ name ∷ []
            else names
      ])
      jobs

-- `sort_by_key(|n| n.to_ascii_lowercase())`
unfoldable pub insert_by_lower : Text → List Text → List Text
insert_by_lower t [] = t ∷ []
insert_by_lower t (u ∷ us) =
    let rest = insert_by_lower t us in
    if text_leb (map ascii_lower t) (map ascii_lower u) then t ∷ u ∷ us else u ∷ rest

unfoldable pub sort_by_lower : List Text → List Text
sort_by_lower [] = []
sort_by_lower (t ∷ ts) = insert_by_lower t (sort_by_lower ts)

unfoldable pub distinct_environments : List ParsedJob → List Text
distinct_environments jobs = sort_by_lower (collect_environments [] jobs)
