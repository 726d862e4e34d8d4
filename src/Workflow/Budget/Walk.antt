-- ===== src/Workflow/Budget/Walk.antt =====
-- What `check_budget` (backend/src/services/workflow_parse.rs) accepts, by the walked and the deepest of a
-- document.
use Prim.Native.Nat.{max}
use overup.Prelude.{
  ℕ, zero, suc, ◌+◌, ◌≤◌, ◌<◌, ◌≡◌, ◌≢◌, ◌↔◌, refl, subst, true, inl, inr, none, [], ◌∷◌, ltb,
  Bool-cases, arith,
}
use overup.Workflow.Yaml.{
  Value, Items, Entries, sequence, mapping, null, bool, number, string, tagged,
}
use overup.Workflow.Budget.Size.{
  size, height, cut_tags, is_untagged, cut_tags-untagged, walked, walked_items, walked_entries,
  deepest, deepest_items, deepest_entries, walked-cut_tags, deepest-cut_tags,
}
use overup.Workflow.Budget.{
  max_nodes, max_depth, Pending, push_items, push_entries, push_children, Verdict, out_of_fuel,
  too_many, too_deep, within, walk, diagnostic_of, check_budget,
}

total : Pending → ℕ
total [] = 0
total ((v, d) ∷ stack) = walked v + total stack

-- The depth of the deepest node that the stack leads to.
reach : Pending → ℕ
reach [] = 0
reach ((v, d) ∷ stack) = max (d + deepest v) (reach stack)

push_items-total :
    (xs : Items) (d : ℕ) (stack : Pending)
    → total (push_items xs d stack) ≡ walked_items xs + total stack
unfolding push_items total walked_items
push_items-total Items.nil d stack = omega arith
push_items-total (Items.cons v rest) d stack =
    omega (arith, push_items-total rest d ((v, d) ∷ stack))

push_entries-total :
    (es : Entries) (d : ℕ) (stack : Pending)
    → total (push_entries es d stack) ≡ walked_entries es + total stack
unfolding push_entries total walked_entries
push_entries-total Entries.end d stack = omega arith
push_entries-total (Entries.entry k v rest) d stack =
    omega (arith, push_entries-total rest d ((v, d) ∷ (k, d) ∷ stack))

push_children-total :
    (v : Value) (d : ℕ) (stack : Pending)
    → suc (total (push_children v d stack)) ≡ walked v + total stack
unfolding push_children walked
push_children-total null d stack = omega arith
push_children-total (bool b) d stack = omega arith
push_children-total (number n) d stack = omega arith
push_children-total (string s) d stack = omega arith
push_children-total (sequence xs) d stack = omega (arith, push_items-total xs d stack)
push_children-total (mapping es) d stack = omega (arith, push_entries-total es d stack)
push_children-total (tagged t v) d stack = omega arith

push_items-reach :
    (xs : Items) (d : ℕ) (stack : Pending)
    → max d (reach (push_items xs (d + 1) stack)) ≡ max (d + deepest_items xs) (reach stack)
unfolding push_items reach deepest_items
push_items-reach Items.nil d stack = omega arith
push_items-reach (Items.cons v rest) d stack =
    omega (arith, push_items-reach rest d ((v, d + 1) ∷ stack))

push_entries-reach :
    (es : Entries) (d : ℕ) (stack : Pending)
    → max d (reach (push_entries es (d + 1) stack)) ≡ max (d + deepest_entries es) (reach stack)
unfolding push_entries reach deepest_entries
push_entries-reach Entries.end d stack = omega arith
push_entries-reach (Entries.entry k v rest) d stack =
    omega (arith, push_entries-reach rest d ((v, d + 1) ∷ (k, d + 1) ∷ stack))

push_children-reach :
    (v : Value) (d : ℕ) (stack : Pending)
    → max d (reach (push_children v (d + 1) stack)) ≡ max (d + deepest v) (reach stack)
unfolding push_children deepest
push_children-reach null d stack = omega arith
push_children-reach (bool b) d stack = omega arith
push_children-reach (number n) d stack = omega arith
push_children-reach (string s) d stack = omega arith
push_children-reach (sequence xs) d stack = push_items-reach xs d stack
push_children-reach (mapping es) d stack = push_entries-reach es d stack
push_children-reach (tagged t v) d stack = omega arith

-- Each round counts a node, so that the budget ends the walk.
walk-ends :
    (fuel nodes : ℕ) (stack : Pending)
    → nodes ≤ max_nodes
    → max_nodes + 1 < nodes + fuel
    → walk fuel nodes stack ≢ out_of_fuel
unfolding walk
walk-ends zero nodes [] few enough e = absurd (omega arith)
walk-ends zero nodes (x ∷ stack) few enough e = absurd (omega arith)
walk-ends (suc fuel) nodes [] few enough e = cc e
walk-ends (suc fuel) nodes ((v, d) ∷ stack) few enough e =
    elim (Bool-cases (ltb max_nodes (nodes + 1))) [
      | inl many ↦ cc (rw many at e)
      | inr room ↦ elim (Bool-cases (ltb max_depth d)) [
        | inl deep ↦ cc (rw (room, deep) at e)
        | inr flat ↦
            walk-ends fuel (nodes + 1) (push_children v (d + 1) stack) (ground arith) (omega arith)
              (rw (room, flat) at e)
      ]
    ]

walk_iff :
    (fuel nodes : ℕ) (stack : Pending)
    → nodes ≤ max_nodes
    → max_nodes + 1 < nodes + fuel
    → (walk fuel nodes stack ≡ within)
      ↔ ((nodes + total stack ≤ max_nodes) × (reach stack ≤ max_depth))
unfolding walk total reach
walk_iff zero nodes [] few enough = absurd (omega arith)
walk_iff zero nodes (x ∷ stack) few enough = absurd (omega arith)
walk_iff (suc fuel) nodes [] few enough = (λ _. (omega arith, omega arith), λ _. refl)
walk_iff (suc fuel) nodes ((v, d) ∷ stack) few enough =
    let below = push_children v (d + 1) stack in
    let counted = push_children-total v (d + 1) stack in
    elim (Bool-cases (ltb max_nodes (nodes + 1))) [
      | inl many ↦ rw many (λ e. cc e, λ (small, _). absurd (ground (arith, counted)))
      | inr room ↦ elim (Bool-cases (ltb max_depth d)) [
        | inl deep ↦ rw (room, deep) (λ e. cc e, λ (_, shallow). absurd (ground arith))
        | inr flat ↦
            let rest = walk_iff fuel (nodes + 1) below (ground arith) (omega arith) in
            let reached = push_children-reach v d stack in
            let not_deep : d ≤ max_depth = ground arith in
            rw (room, flat)
              (
                λ e.
                    let (small, shallow) = rest.0 e in
                    (omega (arith, counted), omega (arith, reached)),
                λ (small, shallow). rest.1 (omega (arith, counted), omega (arith, reached)),
              )
      ]
    ]

verdict_iff :
    (v : Value) (r : Verdict)
    → r ≢ out_of_fuel
    → ((r ≡ within) ↔ ((0 + total ((v, 0) ∷ []) ≤ max_nodes) × (reach ((v, 0) ∷ []) ≤ max_depth)))
    → (diagnostic_of r ≡ none) ↔ ((walked v ≤ max_nodes) × (deepest v ≤ max_depth))
unfolding total reach
verdict_iff v out_of_fuel ends rest = absurd (ends refl)
verdict_iff v too_many ends (to, from) =
    (λ e. cc e, λ (small, flat). cc (from (omega arith, omega arith)))
verdict_iff v too_deep ends (to, from) =
    (λ e. cc e, λ (small, flat). cc (from (omega arith, omega arith)))
verdict_iff v within ends (to, from) =
    (λ _. let (small, flat) = to refl in (omega (arith, small), omega (arith, flat)), λ _. refl)

-- A document is accepted exactly when at most 20000 nodes are left of it, keys counted, and at most 32
-- levels, once whatever stands at a tag has been cut off with all that is below it. What is cut off may
-- have any number of nodes and levels; of a document without tags nothing is cut off.
pub check_budget_iff :
    (v : Value)
    → (check_budget v ≡ none)
      ↔ ((size (cut_tags v) ≤ max_nodes) × (height (cut_tags v) ≤ max_depth))
unfolding check_budget
check_budget_iff v =
    let ends = walk-ends (suc (suc max_nodes)) 0 ((v, 0) ∷ []) (omega arith) (omega arith) in
    let (to, from) =
      verdict_iff v _ ends
        (walk_iff (suc (suc max_nodes)) 0 ((v, 0) ∷ []) (omega arith) (omega arith)) in
    let nodes = walked-cut_tags v in
    let levels = deepest-cut_tags v in
    (
      λ e. (let (small, flat) = to e in (omega (arith, nodes, small), omega (arith, levels, flat))),
      λ (small, flat). from (omega (arith, nodes, small), omega (arith, levels, flat)),
    )

-- A document without tags is accepted exactly when it has at most 20000 nodes, keys counted, and at most
-- 32 levels.
pub check_budget-untagged :
    (v : Value)
    → is_untagged v ≡ true
    → (check_budget v ≡ none) ↔ ((size v ≤ max_nodes) × (height v ≤ max_depth))
check_budget-untagged v h =
    subst (λ w. (check_budget v ≡ none) ↔ ((size w ≤ max_nodes) × (height w ≤ max_depth)))
      (cut_tags-untagged v h) (check_budget_iff v)
