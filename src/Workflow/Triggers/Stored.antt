-- ===== src/Workflow/Triggers/Stored.antt =====
-- The filters that the parser of backend/src/services/workflow_parse.rs stores are those that
-- backend/src/services/trigger_eval.rs reads.
use overup.Prelude.{
  ◌≡◌, refl, ◌∙◌, ap, ◌+◌, ◌≤◌, inl, inr, true, Option, none, some, List, [], ◌∷◌, ◌++◌, All,
  All-In, Bool-cases, arith, take, filter, length, Text, codes, contains, length-append,
}
use overup.Workflow.Yaml.{Yaml, Json, Entries}
use overup.Workflow.Needs.Linked.{contains_iff}
use overup.Workflow.Fields.{get, string_or_list}
use overup.Workflow.Fields.Caps.{
  is_pattern, IsStorable, length-take, take-all, filter-all, filter_patterns-IsStorable,
}
use overup.Workflow.Documents.{documents, index, field_of, as_array, strings-strings_json}
use overup.Workflow.Triggers.{
  pr_activity_types, EventFilters, no_filters, list_json, push_json, pull_request_json, keep_types,
  get_mapping, push_filters, pull_request_filters, pull_request_types, stored_filters, on_value,
  extract_trigger_filters,
}
use overup.Trigger.{patterns, strings}

abbrev read_value : Option (List Json) → List Text
read_value o = elim o [
  | none ↦ []
  | some list ↦ take 50 (filter is_pattern (strings documents list))
]

-- A list within the caps is read as it is stored.
read_list :
    (doc : Json) (key : Text) (xs : List Text)
    → index doc key ≡ list_json xs
    → IsStorable xs
    → patterns documents doc key ≡ xs
unfolding patterns as_array
read_list doc key xs e (short, fine) =
    ap (λ v. read_value (as_array v)) e
    ∙ ap (λ list. take 50 (filter is_pattern list)) (strings-strings_json xs)
    ∙ ap (take 50) (filter-all is_pattern xs fine)
    ∙ take-all 50 xs short

abbrev AllStorable : EventFilters → Type 0
AllStorable f =
    IsStorable f.branches
    × IsStorable f.branches_ignore
    × IsStorable f.tags
    × IsStorable f.tags_ignore
    × IsStorable f.paths
    × IsStorable f.paths_ignore

-- What the evaluation of a push reads of a document.
abbrev pub ReadsPush : Json → EventFilters → Type 0
ReadsPush doc f =
    (patterns documents doc (codes "branches") ≡ f.branches)
    × (patterns documents doc (codes "branchesIgnore") ≡ f.branches_ignore)
    × (patterns documents doc (codes "tags") ≡ f.tags)
    × (patterns documents doc (codes "tagsIgnore") ≡ f.tags_ignore)
    × (patterns documents doc (codes "paths") ≡ f.paths)
    × (patterns documents doc (codes "pathsIgnore") ≡ f.paths_ignore)

-- What the evaluation of a pull request reads of a document.
abbrev pub ReadsPullRequest : Json → List Text → EventFilters → Type 0
ReadsPullRequest doc types f =
    (patterns documents doc (codes "types") ≡ types)
    × (patterns documents doc (codes "branches") ≡ f.branches)
    × (patterns documents doc (codes "branchesIgnore") ≡ f.branches_ignore)
    × (patterns documents doc (codes "paths") ≡ f.paths)
    × (patterns documents doc (codes "pathsIgnore") ≡ f.paths_ignore)

push_json-ReadsPush : (f : EventFilters) → AllStorable f → ReadsPush (push_json f) f
unfolding push_json index field_of
push_json-ReadsPush f (b, bi, t, ti, p, pi) = (
  read_list _ _ _ refl b,
  read_list _ _ _ refl bi,
  read_list _ _ _ refl t,
  read_list _ _ _ refl ti,
  read_list _ _ _ refl p,
  read_list _ _ _ refl pi,
)

pull_request_json-ReadsPullRequest :
    (types : List Text) (f : EventFilters)
    → IsStorable types
    → AllStorable f
    → ReadsPullRequest (pull_request_json types f) types f
unfolding pull_request_json index field_of
pull_request_json-ReadsPullRequest types f ts (b, bi, t, ti, p, pi) = (
  read_list _ _ _ refl ts,
  read_list _ _ _ refl b,
  read_list _ _ _ refl bi,
  read_list _ _ _ refl p,
  read_list _ _ _ refl pi,
)

nothing-IsStorable : IsStorable []
nothing-IsStorable = (omega arith, tt)

no_filters-AllStorable : AllStorable no_filters
no_filters-AllStorable = (
  nothing-IsStorable, nothing-IsStorable, nothing-IsStorable, nothing-IsStorable,
  nothing-IsStorable, nothing-IsStorable,
)

known_type : (value : Text) → contains pr_activity_types value ≡ true → is_pattern value ≡ true
known_type value known =
    All-In (λ p. is_pattern p ≡ true) pr_activity_types value
      ((contains_iff pr_activity_types value).0 known) (ground arith)

All-snoc : (P : Text → Type 0) (xs : List Text) (y : Text) → All P xs → P y → All P (xs ++ y ∷ [])
All-snoc P [] y h p = (p, tt)
All-snoc P (x ∷ xs) y (h, hs) p = (h, All-snoc P xs y hs p)

keep_types-lem :
    (values types : List Text) (room : _)
    → All (λ p. is_pattern p ≡ true) types
    → length types + length values ≤ room
    → All (λ p. is_pattern p ≡ true) (keep_types types values).0
      × (length (keep_types types values).0 ≤ room)
unfolding keep_types
keep_types-lem [] types room fine small = (fine, omega (arith, small))
keep_types-lem (v ∷ values) types room fine small =
    elim (Bool-cases (contains pr_activity_types v)) [
      | inr unknown ↦ rw unknown (keep_types-lem values types room fine (omega (arith, small)))
      | inl known ↦ rw known (elim (Bool-cases (contains types v)) [
        | inl old ↦ rw old (keep_types-lem values types room fine (omega (arith, small)))
        | inr new ↦ rw new (
            keep_types-lem values (types ++ v ∷ []) room
              (All-snoc (λ p. is_pattern p ≡ true) types v fine (known_type v known))
              (omega (arith, small, length-append types (v ∷ []))))
      ])
    ]

module _ (yaml : Yaml) where
  push_filters-AllStorable : (body : Option Entries) → AllStorable (push_filters yaml body).0
  unfolding push_filters
  push_filters-AllStorable none = no_filters-AllStorable
  push_filters-AllStorable (some body) = (
    filter_patterns-IsStorable yaml _ _,
    filter_patterns-IsStorable yaml _ _,
    filter_patterns-IsStorable yaml _ _,
    filter_patterns-IsStorable yaml _ _,
    filter_patterns-IsStorable yaml _ _,
    filter_patterns-IsStorable yaml _ _,
  )

  pull_request_filters-AllStorable :
      (body : Option Entries) → AllStorable (pull_request_filters yaml body).0
  unfolding pull_request_filters
  pull_request_filters-AllStorable none = no_filters-AllStorable
  pull_request_filters-AllStorable (some body) = (
    filter_patterns-IsStorable yaml _ _,
    filter_patterns-IsStorable yaml _ _,
    nothing-IsStorable,
    nothing-IsStorable,
    filter_patterns-IsStorable yaml _ _,
    filter_patterns-IsStorable yaml _ _,
  )

  pull_request_types-IsStorable :
      (body : Option Entries) → IsStorable (pull_request_types yaml body).0
  unfolding pull_request_types string_or_list
  pull_request_types-IsStorable none = nothing-IsStorable
  pull_request_types-IsStorable (some body) =
      let (fine, short) =
        keep_types-lem (string_or_list yaml (get yaml body (codes "types"))) [] 50 tt
          (omega (arith, length-take 50 (filter _ _))) in
      (short, fine)

  -- The document that `extract_trigger_filters` stores, and what the two events of it hold.
  abbrev pub push_of : Option Entries → EventFilters
  push_of events = elim events [
    | none ↦ no_filters
    | some es ↦ (push_filters yaml (get_mapping yaml es (codes "push"))).0
  ]

  abbrev pub pull_request_of : Option Entries → EventFilters
  pull_request_of events = elim events [
    | none ↦ no_filters
    | some es ↦ (pull_request_filters yaml (get_mapping yaml es (codes "pull_request"))).0
  ]

  abbrev pub types_of : Option Entries → List Text
  types_of events = elim events [
    | none ↦ []
    | some es ↦ (pull_request_types yaml (get_mapping yaml es (codes "pull_request"))).0
  ]

  abbrev pub events_of : Entries → Option Entries
  events_of root = elim (on_value yaml root) [ none ↦ none | some v ↦ yaml.as_mapping v ]

  stored_filters-read :
      (events : Option Entries)
      → ReadsPush (index (stored_filters yaml events).0 (codes "push")) (push_of events)
        × ReadsPullRequest
            (index (stored_filters yaml events).0 (codes "pullRequest"))
            (types_of events)
            (pull_request_of events)
  unfolding stored_filters index field_of
  stored_filters-read none = (
    push_json-ReadsPush no_filters no_filters-AllStorable,
    pull_request_json-ReadsPullRequest [] no_filters nothing-IsStorable no_filters-AllStorable,
  )
  stored_filters-read (some es) = (
    push_json-ReadsPush _ (push_filters-AllStorable _),
    pull_request_json-ReadsPullRequest _ _ (pull_request_types-IsStorable _)
        (pull_request_filters-AllStorable _),
  )

  -- Each filter list that the parser keeps for pushes and for pull requests is read from the stored
  -- document as it was kept, in its order, none of it dropped by the caps of the reader.
  pub extract_trigger_filters-read :
      (root : Entries)
      → ReadsPush
          (index (extract_trigger_filters yaml root).0 (codes "push"))
          (push_of (events_of root))
        × ReadsPullRequest
            (index (extract_trigger_filters yaml root).0 (codes "pullRequest"))
            (types_of (events_of root))
            (pull_request_of (events_of root))
  unfolding extract_trigger_filters
  extract_trigger_filters-read root = stored_filters-read (events_of root)
