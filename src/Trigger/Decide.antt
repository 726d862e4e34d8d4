-- ===== src/Trigger/Decide.antt =====
-- What `evaluate` decides (backend/src/services/trigger_eval.rs): the conditions under which an event
-- runs a workflow.
use overup.Prelude.{
  Bool, true, false, Option, List, [], ◌∷◌, Text, codes, ◌≡◌, ◌≢◌, refl, ◌↔◌, ◌⊎◌, inl, inr, arith,
  if◌then◌else◌, ◌&&◌, ◌||◌, not, is_empty, contains,
}
use overup.Trigger.{
  Json, run, skip, event_not_declared, branch_filtered, tag_filtered, type_filtered, Decision,
  EventKind, push, tag_push, pull_request, EventContext, declared_event, default_pr_types,
  match_ordered, patterns, evaluate_paths, evaluate_push, evaluate_tag, evaluate_pull_request,
  evaluate_kind, evaluate,
}
use overup.Trigger.Filters.{Passes, NoneOf, PathsPass, NamePass, name_gate, paths_iff}

-- The activity types of a pull request: the declared ones, or the defaults.
abbrev pub TypePass : List Text → Text → Type 0
TypePass types action =
    ((types ≡ []) × (contains default_pr_types action ≡ true))
    ⊎ ((types ≢ []) × (contains types action ≡ true))

module _ (json : Json) (filters : json.Value) (changed_paths : Option (List Text)) where
  abbrev FilesPass : Type 0
  FilesPass =
      PathsPass (patterns json filters (codes "paths"))
        (patterns json filters (codes "pathsIgnore")) changed_paths

  abbrev PushRuns : Text → Type 0
  PushRuns branch =
      NamePass (patterns json filters (codes "branches"))
        (patterns json filters (codes "branchesIgnore")) (patterns json filters (codes "tags"))
        (patterns json filters (codes "tagsIgnore")) branch
      × FilesPass

  abbrev TagRuns : Text → Type 0
  TagRuns tag =
      NamePass (patterns json filters (codes "tags")) (patterns json filters (codes "tagsIgnore"))
        (patterns json filters (codes "branches")) (patterns json filters (codes "branchesIgnore"))
        tag

  abbrev PullRequestRuns : Text → Text → Type 0
  PullRequestRuns action base =
      TypePass (patterns json filters (codes "types")) action
      × (Passes (patterns json filters (codes "branches"))
            (patterns json filters (codes "branchesIgnore")) base
          ⊎ NoneOf (patterns json filters (codes "branches"))
              (patterns json filters (codes "branchesIgnore")))
      × FilesPass

others_iff : (xs ys : List Text) → ((not (is_empty xs) || not (is_empty ys)) ≡ false) ↔ NoneOf xs ys
others_iff [] [] = (λ _. (refl, refl), λ _. refl)
others_iff [] (y ∷ ys) = (λ e. absurd (cc), λ (_, e). cc)
others_iff (x ∷ xs) ys = (λ e. absurd (cc), λ (e, _). cc)

type_iff :
    (types : List Text) (action : Text)
    → ((if is_empty types then contains default_pr_types action else contains types action) ≡ true)
      ↔ TypePass types action
type_iff [] action = (λ e. inl (refl, e), elim [ inl (_, e) ↦ e | inr (ne, _) ↦ absurd (ne refl) ])
type_iff (t ∷ types) action =
    (λ e. inr ((λ n. cc), e), elim [ inl (n, _) ↦ absurd (cc) | inr (_, e) ↦ e ])

-- The name test of a pull request has the shape of `name_gate` with no other dimension.
base_gate :
    (only ignore : List Text) (base : Text) (d : Decision)
    → ((if not (is_empty only)
          then if not (match_ordered only base) then skip branch_filtered else d
          else if not (is_empty ignore) && match_ordered ignore base
          then skip branch_filtered
          else d)
        ≡ run)
      ↔ ((Passes only ignore base ⊎ NoneOf only ignore) × (d ≡ run))
base_gate (x ∷ xs) ignore base d =
    (λ e. (inl (inl (λ n. cc, ground arith)), ground arith), λ (p, e). ground arith)
base_gate [] (y ∷ ys) base d =
    (λ e. (inl (inr (refl, (λ n. cc), ground arith)), ground arith), λ (p, e). ground arith)
base_gate [] [] base d = (λ e. (inr (refl, refl), e), λ (p, e). e)

type_gate :
    (b : Bool) (d : Decision)
    → ((if not b then skip type_filtered else d) ≡ run) ↔ ((b ≡ true) × (d ≡ run))
type_gate b d = ground arith

module _ (json : Json) (filters : json.Value) (changed_paths : Option (List Text)) where
  push_iff :
      (branch : Text)
      → (evaluate_push json filters branch changed_paths ≡ run)
        ↔ PushRuns json filters changed_paths branch
  unfolding evaluate_push
  push_iff branch =
      let (gate, open_gate) =
        name_gate (patterns json filters (codes "branches"))
          (patterns json filters (codes "branchesIgnore")) _ branch
          (evaluate_paths json filters changed_paths) branch_filtered in
      let (files, run_files) = paths_iff json filters changed_paths in
      let (others, none_other) =
        others_iff (patterns json filters (codes "tags"))
          (patterns json filters (codes "tagsIgnore")) in
      (
        λ e.
            let (names, rest) = gate e in
            (elim names [ inl p ↦ inl p | inr (n, o) ↦ inr (n, others o) ], files rest),
        λ (names, rest).
            open_gate
              (elim names [ inl p ↦ inl p | inr (n, o) ↦ inr (n, none_other o) ], run_files rest),
      )

  tag_iff :
      (tag : Text) → (evaluate_tag json filters tag ≡ run) ↔ TagRuns json filters changed_paths tag
  unfolding evaluate_tag
  tag_iff tag =
      let (gate, open_gate) =
        name_gate (patterns json filters (codes "tags"))
          (patterns json filters (codes "tagsIgnore")) _ tag run tag_filtered in
      let (others, none_other) =
        others_iff (patterns json filters (codes "branches"))
          (patterns json filters (codes "branchesIgnore")) in
      (
        λ e. elim (gate e).0 [ inl p ↦ inl p | inr (n, o) ↦ inr (n, others o) ],
        λ names.
            open_gate (elim names [ inl p ↦ inl p | inr (n, o) ↦ inr (n, none_other o) ], refl),
      )

  pull_request_iff :
      (action base : Text)
      → (evaluate_pull_request json filters action base changed_paths ≡ run)
        ↔ PullRequestRuns json filters changed_paths action base
  unfolding evaluate_pull_request
  pull_request_iff action base =
      let (typed, pass_type) = type_gate _ _ in
      let (kind, of_kind) = type_iff (patterns json filters (codes "types")) action in
      let (gate, open_gate) =
        base_gate (patterns json filters (codes "branches"))
          (patterns json filters (codes "branchesIgnore")) base
          (evaluate_paths json filters changed_paths) in
      let (files, run_files) = paths_iff json filters changed_paths in
      (
        λ e.
            let (t, rest) = typed e in let (names, last) = gate rest in (kind t, names, files last),
        λ (t, names, last). pass_type (of_kind t, open_gate (names, run_files last)),
      )

-- When the filters let an event through, over the stored `triggerFilters`.
abbrev pub Runs : (json : Json) → json.Value → EventKind → Option (List Text) → Type 0
Runs json filters (push branch) changed_paths =
    PushRuns json (json.index filters (codes "push")) changed_paths branch
Runs json filters (tag_push tag) changed_paths =
    TagRuns json (json.index filters (codes "push")) changed_paths tag
Runs json filters (pull_request action base) changed_paths =
    PullRequestRuns json (json.index filters (codes "pullRequest")) changed_paths action base

kind_iff :
    (json : Json) (filters : json.Value) (kind : EventKind) (changed_paths : Option (List Text))
    → (evaluate_kind json filters kind changed_paths ≡ run) ↔ Runs json filters kind changed_paths
unfolding evaluate_kind
kind_iff json filters (push branch) changed_paths = push_iff json _ changed_paths branch
kind_iff json filters (tag_push tag) changed_paths = tag_iff json _ changed_paths tag
kind_iff json filters (pull_request action base) changed_paths =
    pull_request_iff json _ changed_paths action base

declared_gate :
    (b : Bool) (d : Decision)
    → ((if not b then skip event_not_declared else d) ≡ run) ↔ ((b ≡ true) × (d ≡ run))
declared_gate b d = ground arith

-- A workflow runs on an event exactly when it declares the event and every dimension of its filters
-- passes. A branch push passes the branch lists, where `branches` wins over `branches-ignore` and
-- where, with neither, no tag list may be present, and it passes the path lists; a tag push passes
-- the tag lists in the same way, and no path list; a pull request has one of the declared or default
-- activity types, and passes the branch lists on its base branch and the path lists. The path lists
-- pass with neither present, on an unknown diff, or by one changed file that counts.
pub evaluate_iff :
    (json : Json) (triggers : List Text) (metadata : json.Value) (ctx : EventContext)
    → (evaluate json triggers metadata ctx ≡ run) ↔ (
        (contains triggers (declared_event ctx.kind) ≡ true)
        × Runs json (json.index metadata (codes "triggerFilters")) ctx.kind ctx.changed_paths)
unfolding evaluate
evaluate_iff json triggers metadata ctx =
    let (gate, open_gate) = declared_gate _ _ in
    let (to, from) = kind_iff json _ ctx.kind ctx.changed_paths in
    (λ e. let (d, r) = gate e in (d, to r), λ (d, r). open_gate (d, from r))
