-- ===== src/Workflow/Needs/Invariant.antt =====
-- What the search of `validate_needs` (backend/src/services/workflow_parse.rs) keeps true of its stack and
-- its colors: the markers are a path, and a finished node leads nowhere in a circle.
use overup.Prelude.{
  ◌≡◌, refl, sym, ◌∙◌, ap, subst, true, false, ◌⊎◌, inl, inr, Bool, Option, none, some, List, [],
  ◌∷◌, if◌then◌else◌, In, Text, text_eq, text_eq_iff, text_eq_refl, Bool-cases,
}
use overup.Workflow.Needs.{
  Edges, successors, Color, on_stack, finished, Colors, color_of, is_finished, Stack, push_open,
}
use overup.Workflow.Needs.Acyclic.{Leads, edge, further, IsGrounded}

abbrev pub Edge : Edges → Text → Text → Type 0
Edge edges u v = In v (successors edges u)

abbrev pub IsFinished : Colors → Text → Type 0
IsFinished colors u = color_of colors u ≡ some finished

pub color_of-cons :
    (colors : Colors) (key u : Text) (c : Color)
    → color_of ((key, c) ∷ colors) u ≡ (if text_eq key u then some c else color_of colors u)
unfolding color_of
color_of-cons colors key u c = refl

pub color_of_self : (colors : Colors) (u : Text) (c : Color) → color_of ((u, c) ∷ colors) u ≡ some c
color_of_self colors u c = color_of-cons colors u u c ∙ (rw (text_eq_refl u) refl)

-- A color that is set changes that of no other node.
pub color_of-cases :
    (colors : Colors) (key u : Text) (c : Color)
    → ((key ≡ u) × (color_of ((key, c) ∷ colors) u ≡ some c))
      ⊎ (color_of ((key, c) ∷ colors) u ≡ color_of colors u)
color_of-cases colors key u c = elim (Bool-cases (text_eq key u)) [
  | inl e ↦ inl ((text_eq_iff key u).0 e, color_of-cons colors key u c ∙ (rw e refl))
  | inr e ↦ inr (color_of-cons colors key u c ∙ (rw e refl))
]

is_finished_lem : (o : Option Color) → is_finished o ≡ true → o ≡ some finished
is_finished_lem none e = cc
is_finished_lem (some on_stack) e = cc
is_finished_lem (some finished) e = refl

module _ (edges : Edges) where
  -- The markers of a stack are the path that the search has come along.
  abbrev pub Parent : Text → Stack → Type 0
  Parent n [] = Unit
  Parent n ((u, true) ∷ stack) = Edge edges u n
  Parent n ((u, false) ∷ stack) = Parent n stack

  abbrev pub IsPath : Stack → Type 0
  IsPath [] = Unit
  IsPath ((n, leaving) ∷ stack) = Parent n stack × IsPath stack

  pub marker-Leads :
      (stack : Stack) (n m : Text)
      → Parent m stack
      → IsPath stack
      → In (n, true) stack
      → Leads (Edge edges) n m
  marker-Leads [] n m p w i = absurd i
  marker-Leads ((u, true) ∷ stack) n m p (pu, w) (inl e) =
      edge (subst (λ x. Edge edges x m) (sym (ap (λ (t : Text × Bool). t.0) e)) p)
  marker-Leads ((u, true) ∷ stack) n m p (pu, w) (inr i) = further (marker-Leads stack n u pu w i) p
  marker-Leads ((u, false) ∷ stack) n m p (pu, w) (inl e) = cc (ap (λ (t : Text × Bool). t.1) e)
  marker-Leads ((u, false) ∷ stack) n m p (pu, w) (inr i) = marker-Leads stack n m p w i

  pub push_open-IsPath :
      (colors : Colors) (next : List Text) (stack : Stack)
      → ((v : Text) → In v next → Parent v stack)
      → IsPath stack
      → IsPath (push_open colors next stack)
  unfolding push_open
  push_open-IsPath colors [] stack h w = w
  push_open-IsPath colors (n ∷ next) stack h w =
      elim (Bool-cases (is_finished (color_of colors n))) [
        | inl e ↦ rw e (push_open-IsPath colors next stack (λ v i. h v (inr i)) w)
        | inr e ↦ rw e (
            push_open-IsPath colors next ((n, false) ∷ stack) (λ v i. h v (inr i))
              (h n (inl refl), w))
      ]

  pub push_open-In :
      (colors : Colors) (next : List Text) (stack : Stack) (x : Text × Bool)
      → In x stack
      → In x (push_open colors next stack)
  unfolding push_open
  push_open-In colors [] stack x i = i
  push_open-In colors (n ∷ next) stack x i = elim (Bool-cases (is_finished (color_of colors n))) [
    | inl e ↦ rw e (push_open-In colors next stack x i)
    | inr e ↦ rw e (push_open-In colors next ((n, false) ∷ stack) x (inr i))
  ]

  -- A node with the color of the stack has its marker there.
  abbrev pub IsMarked : Stack → Colors → Type 0
  IsMarked stack colors = (u : Text) → color_of colors u ≡ some on_stack → In (u, true) stack

  abbrev pub Seen : Colors → List Text → Text → Type 0
  Seen colors above v = IsFinished colors v ⊎ In v above

  -- What a marked node leads to is finished or above its marker, and the goals are finished or on the
  -- stack.
  abbrev pub Covered : List Text → Colors → List Text → Stack → Type 0
  Covered goals colors above [] = (v : Text) → In v goals → Seen colors above v
  Covered goals colors above ((n, leaving) ∷ stack) =
      (leaving ≡ true → (v : Text) → Edge edges n v → Seen colors above v)
      × Covered goals colors (n ∷ above) stack

  abbrev pub AllGrounded : Colors → Type 0
  AllGrounded colors = (u : Text) → IsFinished colors u → IsGrounded (Edge edges) u

  pub record IsSound (goals : List Text) (stack : Stack) (colors : Colors) : Type 0 where
    pub path : IsPath stack
    pub marked : IsMarked stack colors
    pub covered : Covered goals colors [] stack
    pub ground : AllGrounded colors

  pub Covered-map :
      (goals : List Text) (c c' : Colors) (stack : Stack) (above above' : List Text)
      → ((v : Text) → Seen c above v → Seen c' above' v)
      → Covered goals c above stack
      → Covered goals c' above' stack
  Covered-map goals c c' [] above above' f h = λ v i. f v (h v i)
  Covered-map goals c c' ((n, leaving) ∷ stack) above above' f (h, rest) = (
    λ l v e. f v (h l v e),
    Covered-map goals c c' stack (n ∷ above) (n ∷ above')
        (λ v s. elim s [
          | inl done ↦ elim (f v (inl done)) [ inl d ↦ inl d | inr i ↦ inr (inr i) ]
          | inr i ↦ elim i [
            | inl e ↦ inr (inl e)
            | inr j ↦ elim (f v (inr j)) [ inl d ↦ inl d | inr k ↦ inr (inr k) ]
          ]
        ])
        rest,
  )

  pub push_open-Covered :
      (goals : List Text) (colors : Colors) (next : List Text) (stack : Stack) (above : List Text)
      → ((seen : List Text)
          → ((v : Text) → In v next → Seen colors seen v)
          → Covered goals colors seen stack)
      → Covered goals colors above (push_open colors next stack)
  unfolding push_open
  push_open-Covered goals colors [] stack above h = h above (λ v i. absurd i)
  push_open-Covered goals colors (n ∷ next) stack above h =
      elim (Bool-cases (is_finished (color_of colors n))) [
        | inl e ↦ rw e (
            push_open-Covered goals colors next stack above (λ seen s. h seen (λ v i. elim i [
              | inl same ↦
                  inl (subst (IsFinished colors) (sym same) (is_finished_lem (color_of colors n) e))
              | inr j ↦ s v j
            ])))
        | inr e ↦ rw e (
            push_open-Covered goals colors next ((n, false) ∷ stack) above (λ seen s. (
              λ l. cc,
              h (n ∷ seen) (λ v i. elim i [
                | inl same ↦ inr (inl same)
                | inr j ↦ elim (s v j) [ inl d ↦ inl d | inr k ↦ inr (inr k) ]
              ]),
            )))
      ]
