-- ===== src/Workflow/Substitute.antt =====
-- backend/src/services/workflow_parse.rs, `substitute_context_refs`: references to secrets and variables are
-- replaced, all else stays.
pub mod Blocks
mod Tests
use overup.Prelude.{
  Bool, true, false, ◌&&◌, ℕ, zero, suc, Option, none, some, List, [], ◌∷◌, ◌++◌, if◌then◌else◌,
  ◌==◌, length, Text, codes, text_eq,
}
use overup.Workflow.Words.{strip_prefix, split_once, trim, trim_start}
use overup.Workflow.Fields.{is_ref_ident}
use overup.Workflow.Refs.{quoted}

abbrev pub opening : Text
opening = codes "${{"

abbrev pub closing : Text
closing = codes "}}"

-- The name that stands alone behind a context, in either form.
unfoldable pub single_name : Text → Option (Text)
single_name [] = none
single_name (c ∷ rest) =
    if c == b'.'
    then if is_ref_ident rest then some rest else none
    else if c == b'['
    then elim (quoted (trim_start rest)) [
      | none ↦ none
      | some (name, tail) ↦
          if text_eq (trim tail) (b']' ∷ []) && is_ref_ident name then some name else none
    ]
    else none

unfoldable pub ref_in : Text → Text → Option (Text)
ref_in context expr = elim (strip_prefix context expr) [
  | none ↦ none
  | some rest ↦ single_name rest
]

-- `for context in ["secrets", "vars"]`
unfoldable pub parse_single_ref : Text → Option (Text × Text)
parse_single_ref expr = elim (ref_in (codes "secrets") expr) [
  | some name ↦ some (codes "secrets", name)
  | none ↦ elim (ref_in (codes "vars") expr) [ none ↦ none | some name ↦ some (codes "vars", name) ]
]

module _ (lookup : Text → Text → Option (Text)) where
  abbrev pub value_of : Text → Option (Text)
  value_of expr = elim (parse_single_ref (trim expr)) [
    | none ↦ none
    | some (context, name) ↦ lookup context name
  ]

  abbrev pub replacement : Text → Text
  replacement expr = elim (value_of expr) [ some value ↦ value | none ↦ opening ++ expr ++ closing ]

  abbrev pub after_prefix : Text → Option (Text) → Option (Text)
  after_prefix before none = none
  after_prefix before (some out) = some (before ++ out)

  -- `while let Some(start) = rest.find("${{")`, on fuel.
  unfoldable pub substitute_from : ℕ → Text → Option (Text)
  substitute_from zero input = none
  substitute_from (suc fuel) input = elim (split_once opening input) [
    | none ↦ some input
    | some (before, rest) ↦ elim (split_once closing rest) [
      | none ↦ some input
      | some (expr, tail) ↦ after_prefix (before ++ replacement expr) (substitute_from fuel tail)
    ]
  ]

  unfoldable pub substitute_context_refs : Text → Option (Text)
  substitute_context_refs input = substitute_from (suc (length input)) input
