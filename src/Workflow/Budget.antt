-- ===== src/Workflow/Budget.antt =====
-- backend/src/services/workflow_parse.rs, `check_budget`: the walk over a document, with an explicit stack,
-- that bounds its nodes and its depth.
pub mod Size
pub mod Walk
mod Tests
use overup.Prelude.{ℕ, zero, suc, ◌+◌, Option, none, some, List, [], ◌∷◌, if◌then◌else◌, ltb, codes}
use overup.Workflow.{Diagnostic, error, report}
use overup.Workflow.Yaml.{Value, Items, Entries, sequence, mapping}

abbrev pub max_nodes : ℕ
max_nodes = 20000

abbrev pub max_depth : ℕ
max_depth = 32

abbrev pub Pending : Type 0
Pending = List (Value × ℕ)

-- `stack.extend(seq.iter().map(|v| (v, depth + 1)))`
unfoldable pub push_items : Items → ℕ → Pending → Pending
push_items Items.nil depth stack = stack
push_items (Items.cons v rest) depth stack = push_items rest depth ((v, depth) ∷ stack)

unfoldable pub push_entries : Entries → ℕ → Pending → Pending
push_entries Entries.end depth stack = stack
push_entries (Entries.entry key v rest) depth stack =
    push_entries rest depth ((v, depth) ∷ (key, depth) ∷ stack)

unfoldable pub push_children : Value → ℕ → Pending → Pending
push_children (sequence xs) depth stack = push_items xs depth stack
push_children (mapping es) depth stack = push_entries es depth stack
push_children _ depth stack = stack

pub data Verdict : Type 0 where
  out_of_fuel : Verdict
  too_many : Verdict
  too_deep : Verdict
  within : Verdict

-- `while let Some((value, depth)) = stack.pop()`, on fuel.
unfoldable pub walk : ℕ → ℕ → Pending → Verdict
walk zero nodes stack = out_of_fuel
walk (suc fuel) nodes [] = within
walk (suc fuel) nodes ((value, depth) ∷ stack) =
    let rest = walk fuel (nodes + 1) (push_children value (depth + 1) stack) in
    if ltb max_nodes (nodes + 1) then too_many else if ltb max_depth depth then too_deep else rest

abbrev pub nodes_diagnostic : Diagnostic
nodes_diagnostic = report error (codes "workflow document exceeds the 20000 node budget") none

abbrev pub depth_diagnostic : Diagnostic
depth_diagnostic =
    report error (codes "workflow document exceeds the nesting depth limit of 32") none

-- `Ok(())` is `none`.
abbrev pub diagnostic_of : Verdict → Option Diagnostic
diagnostic_of out_of_fuel = none
diagnostic_of within = none
diagnostic_of too_many = some nodes_diagnostic
diagnostic_of too_deep = some depth_diagnostic

-- The budget ends the walk before its fuel does.
unfoldable pub check_budget : Value → Option Diagnostic
check_budget value = diagnostic_of (walk (suc (suc max_nodes)) 0 ((value, 0) ∷ []))
