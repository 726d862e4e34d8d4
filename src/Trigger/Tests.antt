-- ===== src/Trigger/Tests.antt =====
-- The theorems on triggers at a workflow's stored filters, with JSON values as a data type.
use overup.Prelude.{
  ◌≡◌, ◌↔◌, true, if◌then◌else◌, Option, none, some, List, [], ◌∷◌, Text, codes, text_eq, contains,
}
use overup.Trigger.{Json, run, EventContext, push, match_ordered, declared_event, evaluate}
use overup.Trigger.Ordered.{Selected, match_ordered_iff}
use overup.Trigger.Decide.{Runs, evaluate_iff}

abbrev main_not_wip : List Text
main_not_wip = codes "feature/**" ∷ codes "!feature/wip*" ∷ []

match_ordered_iff_example :
    (match_ordered main_not_wip (codes "feature/login") ≡ true)
    ↔ Selected (codes "feature/login") main_not_wip
match_ordered_iff_example = match_ordered_iff main_not_wip (codes "feature/login")

mutual
  data Tree : Type 0 where
    null : Tree
    string : Text → Tree
    array : Items → Tree
    object : Fields → Tree

  data Items : Type 0 where
    end : Items
    item : Tree → Items → Items

  data Fields : Type 0 where
    closed : Fields
    field : Text → Tree → Fields → Fields

abbrev items_of : Items → List Tree
items_of end = []
items_of (item t items) = t ∷ items_of items

abbrev member_of : Fields → Text → Tree
member_of closed key = null
member_of (field k v fields) key = if text_eq k key then v else member_of fields key

abbrev index_of : Tree → Text → Tree
index_of (object fields) key = member_of fields key
index_of _ key = null

abbrev array_of : Tree → Option (List Tree)
array_of (array items) = some (items_of items)
array_of _ = none

abbrev string_of : Tree → Option Text
string_of (string s) = some s
string_of _ = none

abbrev trees : Json
trees = record { Value = Tree; index = index_of; as_array = array_of; as_str = string_of }

abbrev one_string : Text → Tree
one_string s = array (item (string s) end)

abbrev filters : Tree
filters = object (
    field (codes "branches") (one_string (codes "main"))
      (field (codes "paths") (one_string (codes "src/**")) closed))

abbrev stored : Tree
stored =
    object (field (codes "triggerFilters") (object (field (codes "push") filters closed)) closed)

abbrev push_to_main : EventContext
push_to_main = record { kind = push (codes "main"); changed_paths = some (codes "src/lib.rs" ∷ []) }

evaluate_iff_example : (evaluate trees (codes "push" ∷ []) stored push_to_main ≡ run) ↔ (
    (contains (codes "push" ∷ []) (declared_event (push (codes "main"))) ≡ true)
    × Runs trees
        (index_of stored (codes "triggerFilters"))
        (push (codes "main"))
        (some (codes "src/lib.rs" ∷ [])))
evaluate_iff_example = evaluate_iff trees (codes "push" ∷ []) stored push_to_main
