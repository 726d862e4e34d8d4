-- ===== src/Workflow/Needs/Ends.antt =====
-- The search of `validate_needs` (backend/src/services/workflow_parse.rs) ends: each job is entered once, and
-- pushes itself and its successors.
use overup.Prelude.{
  ◌≡◌, refl, ap, ◌≤◌, ◌<◌, ◌+◌, inl, inr, true, false, Bool, none, List, [], ◌∷◌, In, All, Text, ℕ,
  zero, suc, length, Bool-cases, arith,
}
use overup.Workflow.Needs.{
  Edges, successors, Color, on_stack, finished, Colors, color_of, is_finished, Stack, push_open,
  Outcome, out_of_fuel, circular, searched, search_from, search_jobs, fuel_for, weight, and_then,
}
use overup.Workflow.Needs.Invariant.{Edge, color_of_self, color_of-cases}
use overup.Workflow.Needs.Search.{color-cases}

weight-step :
    (edges : Edges) (keys : List Text) (n : Text) (c : Color) (colors : Colors)
    → weight edges keys ((n, c) ∷ colors) ≤ weight edges keys colors
unfolding weight
weight-step edges [] n c colors = omega arith
weight-step edges (key ∷ keys) n c colors = elim (color_of-cases colors n key c) [
  | inl (same, e) ↦ rw e (omega (arith, weight-step edges keys n c colors))
  | inr old ↦ rw old (omega (arith, weight-step edges keys n c colors))
]

weight-entered :
    (edges : Edges) (keys : List Text) (n : Text) (c : Color) (colors : Colors)
    → color_of colors n ≡ none
    → In n keys
    → weight edges keys ((n, c) ∷ colors) + suc (length (successors edges n))
      ≤ weight edges keys colors
unfolding weight
weight-entered edges [] n c colors fresh i = absurd i
weight-entered edges (key ∷ keys) n c colors fresh (inl same) = rw (← same) (
    rw (color_of_self colors n c, fresh)
      (omega
        (arith, weight-step edges keys n c colors, ap (λ k. length (successors edges k)) same)))
weight-entered edges (key ∷ keys) n c colors fresh (inr later) =
    elim (color_of-cases colors n key c) [
      | inl (same, e) ↦ rw e (omega (arith, weight-entered edges keys n c colors fresh later))
      | inr old ↦ rw old (omega (arith, weight-entered edges keys n c colors fresh later))
    ]

push_open-length :
    (colors : Colors) (next : List Text) (stack : Stack)
    → length (push_open colors next stack) ≤ length next + length stack
unfolding push_open
push_open-length colors [] stack = omega arith
push_open-length colors (n ∷ next) stack = elim (Bool-cases (is_finished (color_of colors n))) [
  | inl e ↦ rw e (omega (arith, push_open-length colors next stack))
  | inr e ↦ rw e (omega (arith, push_open-length colors next ((n, false) ∷ stack)))
]

abbrev pub HasEnded : Outcome → Type 0
HasEnded out_of_fuel = ⊥
HasEnded (circular n) = Unit
HasEnded (searched colors) = Unit

module _ (edges : Edges) (ids : List Text) where
  abbrev IsKnown : Stack → Type 0
  IsKnown stack = All (λ (t : Text × Bool). In t.0 ids) stack

  push_open-IsKnown :
      (colors : Colors) (next : List Text) (stack : Stack)
      → ((v : Text) → In v next → In v ids)
      → IsKnown stack
      → IsKnown (push_open colors next stack)
  unfolding push_open
  push_open-IsKnown colors [] stack h k = k
  push_open-IsKnown colors (n ∷ next) stack h k =
      elim (Bool-cases (is_finished (color_of colors n))) [
        | inl e ↦ rw e (push_open-IsKnown colors next stack (λ v i. h v (inr i)) k)
        | inr e ↦ rw e (
            push_open-IsKnown colors next ((n, false) ∷ stack) (λ v i. h v (inr i))
              (h n (inl refl), k))
      ]

  module _ (closed : (u v : Text) → Edge edges u v → In v ids) where
    search_from-HasEnded :
        (fuel : ℕ) (stack : Stack) (colors : Colors)
        → length stack + weight edges ids colors < fuel
        → IsKnown stack
        → HasEnded (search_from fuel edges stack colors)
    unfolding search_from
    search_from-HasEnded zero stack colors enough k = absurd (omega arith)
    search_from-HasEnded (suc fuel) [] colors enough k = tt
    search_from-HasEnded (suc fuel) ((n, true) ∷ stack) colors enough k =
        search_from-HasEnded fuel stack ((n, finished) ∷ colors)
          (omega (arith, enough, weight-step edges ids n finished colors)) k.1
    search_from-HasEnded (suc fuel) ((n, false) ∷ stack) colors enough k =
        elim (color-cases (color_of colors n)) [
          | inl fresh ↦
              rw (fresh, HasEnded)
                (search_from-HasEnded fuel _ _
                  (omega (
                    arith,
                    enough,
                    weight-entered edges ids n on_stack colors fresh k.0,
                    push_open-length ((n, on_stack) ∷ colors) (successors edges n)
                        ((n, true) ∷ stack),
                  ))
                  (push_open-IsKnown _ (successors edges n) _ (closed n) k))
          | inr colored ↦ elim colored [
            | inl on ↦ rw (on, HasEnded) tt
            | inr f ↦
                rw (f, HasEnded)
                  (search_from-HasEnded fuel stack colors (omega (arith, enough)) k.1)
          ]
        ]

    and_then-HasEnded :
        (out : Outcome) (rest : Colors → Outcome)
        → HasEnded out
        → ((colors : Colors) → HasEnded (rest colors))
        → HasEnded (and_then out rest)
    and_then-HasEnded out_of_fuel rest h f = h
    and_then-HasEnded (circular n) rest h f = tt
    and_then-HasEnded (searched colors) rest h f = f colors

    -- The fuel of each search is enough.
    pub search_jobs-HasEnded :
        (keys : List Text) (colors : Colors)
        → All (λ key. In key ids) keys
        → HasEnded (search_jobs edges ids keys colors)
    unfolding search_jobs
    search_jobs-HasEnded [] colors k = tt
    search_jobs-HasEnded (key ∷ keys) colors k = elim (color-cases (color_of colors key)) [
      | inl fresh ↦
          rw (fresh, HasEnded)
            (and_then-HasEnded _ _
              (search_from-HasEnded (fuel_for edges ids colors) _ colors (omega arith) (k.0, tt))
              (λ c. search_jobs-HasEnded keys c k.1))
      | inr colored ↦ elim colored [
        | inl on ↦ rw (on, HasEnded) (search_jobs-HasEnded keys colors k.1)
        | inr f ↦ rw (f, HasEnded) (search_jobs-HasEnded keys colors k.1)
      ]
    ]
