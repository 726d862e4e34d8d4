-- ===== src/Workflow/Needs.antt =====
-- backend/src/services/workflow_parse.rs, `validate_needs`: unresolved references among the `needs` of
-- jobs, and cycles, by a depth-first search with an explicit stack. The maps are association lists; a
-- later insertion stands before an earlier one.
pub mod Linked
pub mod Acyclic
pub mod Invariant
pub mod Search
pub mod Jobs
pub mod Ends
pub mod Valid
pub mod Severe
mod Tests
use overup.Prelude.{
  ℕ, zero, suc, ◌+◌, Bool, true, false, not, ◌&&◌, Option, none, some, List, [], ◌∷◌, ◌++◌, map,
  if◌then◌else◌, length, Text, codes, text_eq, contains,
}
use overup.Workflow.{Diagnostic, error, report, ParsedJob}

abbrev pub Edges : Type 0
Edges = List (Text × List Text)

-- `edges.get(node)`, empty where there is no entry.
unfoldable pub successors : Edges → Text → List Text
successors [] node = []
successors ((key, needs) ∷ edges) node = if text_eq key node then needs else successors edges node

-- `edges.entry(key).or_default().push(need)`
unfoldable pub push_edge : Text → Text → Edges → Edges
push_edge key need [] = (key, need ∷ []) ∷ []
push_edge key need ((k, needs) ∷ edges) =
    let rest = push_edge key need edges in
    if text_eq k key then (k, needs ++ need ∷ []) ∷ edges else (k, needs) ∷ rest

unfoldable pub needs_path : Text → Option Text
needs_path key = some (codes "jobs." ++ key ++ codes ".needs")

unfoldable pub self_message : Text → Text
self_message key = codes "job `" ++ key ++ codes "` depends on itself"

unfoldable pub unknown_message : Text → Text → Text
unknown_message key need =
    codes "job `" ++ key ++ codes "` needs unknown job `" ++ need ++ codes "`"

unfoldable pub circular_message : Text → Text
circular_message node = codes "circular `needs` dependency involving job `" ++ node ++ codes "`"

-- The edges so far, and the diagnostics that the first loop has pushed.
pub record Links : Type 0 where
  pub edges : Edges
  pub pushed : List Diagnostic

abbrev pub push : Diagnostic → Links → Links
push d links = record links { pushed = links.pushed ++ d ∷ [] }

-- The body of `for need in &job.needs`.
unfoldable pub link_need : List Text → Text → Links → Text → Links
link_need ids key links need =
    if text_eq key need
    then push (report error (self_message key) (needs_path key)) links
    else if not (contains ids need)
    then push (report error (unknown_message key need) (needs_path key)) links
    else record links { edges = push_edge key need links.edges }

unfoldable pub link_needs : List Text → Text → List Text → Links → Links
link_needs ids key [] links = links
link_needs ids key (need ∷ needs) links = link_needs ids key needs (link_need ids key links need)

unfoldable pub link_jobs : List Text → List ParsedJob → Links → Links
link_jobs ids [] links = links
link_jobs ids (job ∷ jobs) links = link_jobs ids jobs (link_needs ids job.key job.needs links)

-- 1 = on the stack, 2 = done
pub data Color : Type 0 where
  on_stack : Color
  finished : Color

abbrev pub Colors : Type 0
Colors = List (Text × Color)

unfoldable pub color_of : Colors → Text → Option Color
color_of [] node = none
color_of ((key, color) ∷ colors) node =
    if text_eq key node then some color else color_of colors node

abbrev pub is_finished : Option Color → Bool
is_finished (some finished) = true
is_finished _ = false

-- A node to visit, or to leave (`true`).
abbrev pub Stack : Type 0
Stack = List (Text × Bool)

-- `for &n in next`
unfoldable pub push_open : Colors → List Text → Stack → Stack
push_open colors [] stack = stack
push_open colors (n ∷ next) stack =
    push_open colors next (if is_finished (color_of colors n) then stack else (n, false) ∷ stack)

pub data Outcome : Type 0 where
  out_of_fuel : Outcome
  circular : Text → Outcome
  searched : Colors → Outcome

-- `while let Some((node, leaving)) = stack.pop()`, on fuel.
unfoldable pub search_from : ℕ → Edges → Stack → Colors → Outcome
search_from zero edges stack colors = out_of_fuel
search_from (suc fuel) edges [] colors = searched colors
search_from (suc fuel) edges ((node, true) ∷ stack) colors =
    search_from fuel edges stack ((node, finished) ∷ colors)
search_from (suc fuel) edges ((node, false) ∷ stack) colors = elim (color_of colors node) [
  | none ↦
      let entered = (node, on_stack) ∷ colors in
      search_from fuel edges (push_open entered (successors edges node) ((node, true) ∷ stack))
        entered
  | some color ↦ elim color [
    | on_stack ↦ circular node
    | finished ↦ search_from fuel edges stack colors
  ]
]

-- What the search can still push: each node that has no color yet, with its successors.
unfoldable pub weight : Edges → List Text → Colors → ℕ
weight edges [] colors = 0
weight edges (key ∷ keys) colors =
    (elim (color_of colors key) [ none ↦ suc (length (successors edges key)) | some _ ↦ 0 ])
    + weight edges keys colors

-- One search uses no more fuel than this.
abbrev pub fuel_for : Edges → List Text → Colors → ℕ
fuel_for edges ids colors = suc (suc (weight edges ids colors))

-- A cycle ends the whole function.
abbrev pub and_then : Outcome → (Colors → Outcome) → Outcome
and_then out_of_fuel rest = out_of_fuel
and_then (circular node) rest = circular node
and_then (searched colors) rest = rest colors

-- `for job in jobs`
unfoldable pub search_jobs : Edges → List Text → List Text → Colors → Outcome
search_jobs edges ids [] colors = searched colors
search_jobs edges ids (key ∷ keys) colors = elim (color_of colors key) [
  | some _ ↦ search_jobs edges ids keys colors
  | none ↦
      and_then (search_from (fuel_for edges ids colors) edges ((key, false) ∷ []) colors)
        (search_jobs edges ids keys)
]

abbrev pub cycle_diagnostics : Outcome → List Diagnostic
cycle_diagnostics (circular node) = report error (circular_message node) (needs_path node) ∷ []
cycle_diagnostics _ = []

-- The diagnostics that `validate_needs` pushes.
unfoldable pub validate_needs : List ParsedJob → List Diagnostic
validate_needs jobs =
    let ids = map (λ j. j.key) jobs in
    let links = link_jobs ids jobs (record { edges = []; pushed = [] }) in
    links.pushed ++ cycle_diagnostics (search_jobs links.edges ids ids [])
