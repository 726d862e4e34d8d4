-- ===== src/Workflow/Budget/Tests.antt =====
-- The budget at a nested sequence, and what a tag hides from it.
use overup.Prelude.{true, ◌≡◌, ◌≤◌, ◌↔◌, refl, none, codes}
use overup.Workflow.Yaml.{Value, null, sequence, cons, nil, tagged}
use overup.Workflow.Budget.{max_nodes, max_depth, push_children, walk, check_budget}
use overup.Workflow.Budget.Size.{size, height, cut_tags, is_untagged}
use overup.Workflow.Budget.Walk.{check_budget_iff}

abbrev nested : Value
nested = sequence (cons (sequence (cons null nil)) (cons null nil))

nested_has_four_nodes : size nested ≡ 4
unfolding size
nested_has_four_nodes = refl

nested_has_height_two : height nested ≡ 2
unfolding height
nested_has_height_two = refl

-- Nothing below a tag counts, whatever it is.
tag_hides : (v : Value) → check_budget (tagged (codes "!x") v) ≡ none
unfolding check_budget walk push_children
tag_hides v = refl

-- A document with a tag: the sequence below it is cut off.
abbrev marked : Value
marked = sequence (cons (tagged (codes "!x") nested) (cons null nil))

check_budget_iff_example :
    (check_budget marked ≡ none)
    ↔ ((size (cut_tags marked) ≤ max_nodes) × (height (cut_tags marked) ≤ max_depth))
check_budget_iff_example = check_budget_iff marked

marked_has_seven_nodes : size marked ≡ 7
unfolding size
marked_has_seven_nodes = refl

cut_has_three_nodes : size (cut_tags marked) ≡ 3
unfolding size cut_tags
cut_has_three_nodes = refl

nested-is_untagged : is_untagged nested ≡ true
unfolding is_untagged
nested-is_untagged = refl
