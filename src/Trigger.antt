-- ===== src/Trigger.antt =====
-- backend/src/services/trigger_eval.rs: whether a repository event satisfies the `on:` conditions of
-- a workflow. The stored metadata is a `serde_json::Value`, which is a parameter: the code reads it
-- by indexing, `as_array` and `as_str` only.
pub mod Ordered
pub mod Filters
pub mod Decide
mod Tests
use overup.Prelude.{
  ℕ, Bool, true, false, not, ◌&&◌, ◌||◌, Option, none, some, List, [], ◌∷◌, leb, ◌==◌,
  if◌then◌else◌, take, filter, any, is_empty, Text, codes, byte_len, text_eq, contains,
}
use overup.Glob.{glob_match, max_pattern_len}

-- The part of `serde_json::Value` that the code uses.
pub record Json : Type 1 where
  pub Value : Type 0
  pub index : Value → Text → Value
  pub as_array : Value → Option (List Value)
  pub as_str : Value → Option Text

abbrev pub max_patterns : ℕ
max_patterns = 50

abbrev pub default_pr_types : List Text
default_pr_types = codes "opened" ∷ codes "synchronize" ∷ codes "reopened" ∷ []

-- The static skip categories.
pub data SkipReason : Type 0 where
  event_not_declared branch_filtered tag_filtered path_filtered type_filtered : SkipReason

pub data Decision : Type 0 where
  run : Decision
  skip : SkipReason → Decision

pub data EventKind : Type 0 where
  push : Text → EventKind
  tag_push : Text → EventKind
  pull_request : Text → Text → EventKind

pub record EventContext : Type 0 where
  pub kind : EventKind
  pub changed_paths : Option (List Text)

-- `pattern.strip_prefix('!')`
unfoldable pub strip_negation : Text → Option Text
strip_negation [] = none
strip_negation (c ∷ rest) = if c == b'!' then some rest else none

-- One round of the loop of `match_ordered`.
unfoldable pub ordered_step : Text → Bool → Option Text → Text → Bool
ordered_step value matched (some negated) pattern =
    if matched && glob_match negated value then false else matched
ordered_step value matched none pattern = if glob_match pattern value then true else matched

unfoldable pub ordered_from : Bool → List Text → Text → Bool
ordered_from matched [] value = matched
ordered_from matched (pattern ∷ patterns) value =
    ordered_from (ordered_step value matched (strip_negation pattern) pattern) patterns value

unfoldable pub match_ordered : List Text → Text → Bool
match_ordered patterns value = ordered_from false patterns value

-- The event name that a workflow must declare.
unfoldable pub declared_event : EventKind → Text
declared_event (push branch) = codes "push"
declared_event (tag_push tag) = codes "push"
declared_event (pull_request action base) = codes "pull_request"

module _ (json : Json) where
  open json use {Value, index, as_array, as_str}

  -- `filter_map(Value::as_str)`
  unfoldable pub strings : List Value → List Text
  strings [] = []
  strings (v ∷ list) = elim (as_str v) [ none ↦ strings list | some s ↦ s ∷ strings list ]

  -- A missing or malformed list reads as no patterns.
  unfoldable pub patterns : Value → Text → List Text
  unfolding strings
  patterns filters key = elim (as_array (index filters key)) [
    | none ↦ []
    | some list ↦
        take max_patterns
          (filter (λ p. not (is_empty p) && leb (byte_len p) max_pattern_len) (strings list))
  ]

  unfoldable pub evaluate_paths : Value → Option (List Text) → Decision
  evaluate_paths filters changed_paths =
      let paths = patterns filters (codes "paths") in
      let paths_ignore = patterns filters (codes "pathsIgnore") in
      if is_empty paths && is_empty paths_ignore then run else elim changed_paths [
        | none ↦ run
        | some changed ↦
            if (if not (is_empty paths)
              then any (λ p. match_ordered paths p) changed
              else any (λ p. not (match_ordered paths_ignore p)) changed)
            then run
            else skip path_filtered
      ]

  -- The arm of a branch push, over `filters["push"]`.
  unfoldable pub evaluate_push : Value → Text → Option (List Text) → Decision
  evaluate_push filters branch changed_paths =
      let branches = patterns filters (codes "branches") in
      let branches_ignore = patterns filters (codes "branchesIgnore") in
      let tags = patterns filters (codes "tags") in
      let tags_ignore = patterns filters (codes "tagsIgnore") in
      if not (is_empty branches)
      then if not (match_ordered branches branch)
        then skip branch_filtered
        else evaluate_paths filters changed_paths
      else if not (is_empty branches_ignore)
      then if match_ordered branches_ignore branch
        then skip branch_filtered
        else evaluate_paths filters changed_paths
      else if not (is_empty tags) || not (is_empty tags_ignore)
      then skip branch_filtered
      else evaluate_paths filters changed_paths

  -- The arm of a tag push, over `filters["push"]`.
  unfoldable pub evaluate_tag : Value → Text → Decision
  evaluate_tag filters tag =
      let branches = patterns filters (codes "branches") in
      let branches_ignore = patterns filters (codes "branchesIgnore") in
      let tags = patterns filters (codes "tags") in
      let tags_ignore = patterns filters (codes "tagsIgnore") in
      if not (is_empty tags)
      then if not (match_ordered tags tag) then skip tag_filtered else run
      else if not (is_empty tags_ignore)
      then if match_ordered tags_ignore tag then skip tag_filtered else run
      else if not (is_empty branches) || not (is_empty branches_ignore)
      then skip tag_filtered
      else run

  -- The arm of a pull request, over `filters["pullRequest"]`.
  unfoldable pub evaluate_pull_request : Value → Text → Text → Option (List Text) → Decision
  evaluate_pull_request pr action base_branch changed_paths =
      let types = patterns pr (codes "types") in
      let branches = patterns pr (codes "branches") in
      let branches_ignore = patterns pr (codes "branchesIgnore") in
      let type_matches =
        if is_empty types then contains default_pr_types action else contains types action in
      if not type_matches
      then skip type_filtered
      else if not (is_empty branches)
      then if not (match_ordered branches base_branch)
        then skip branch_filtered
        else evaluate_paths pr changed_paths
      else if not (is_empty branches_ignore) && match_ordered branches_ignore base_branch
      then skip branch_filtered
      else evaluate_paths pr changed_paths

  unfoldable pub evaluate_kind : Value → EventKind → Option (List Text) → Decision
  evaluate_kind filters (push branch) changed_paths =
      evaluate_push (index filters (codes "push")) branch changed_paths
  evaluate_kind filters (tag_push tag) changed_paths =
      evaluate_tag (index filters (codes "push")) tag
  evaluate_kind filters (pull_request action base_branch) changed_paths =
      evaluate_pull_request (index filters (codes "pullRequest")) action base_branch changed_paths

  unfoldable pub evaluate : List Text → Value → EventContext → Decision
  evaluate triggers metadata ctx =
      if not (contains triggers (declared_event ctx.kind))
      then skip event_not_declared
      else evaluate_kind (index metadata (codes "triggerFilters")) ctx.kind ctx.changed_paths
