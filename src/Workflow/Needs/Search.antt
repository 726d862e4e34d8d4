-- ===== src/Workflow/Needs/Search.antt =====
-- The search of `validate_needs` (backend/src/services/workflow_parse.rs): each round keeps its invariant,
-- a cycle that it reports is there, and where it reports none there is none.
use overup.Prelude.{
  ◌≡◌, refl, sym, ◌∙◌, ap, subst, true, false, ◌⊎◌, inl, inr, Bool, Option, none, some, List, [],
  ◌∷◌, Text, ℕ, zero, suc,
}
use overup.Workflow.Needs.{
  Edges, successors, Color, on_stack, finished, Colors, color_of, Stack, push_open, Outcome,
  out_of_fuel, circular, searched, search_from,
}
use overup.Workflow.Needs.Acyclic.{Leads, IsGrounded, grounded}
use overup.Workflow.Needs.Invariant.{
  Edge, IsFinished, color_of_self, color_of-cases, Seen, IsSound, marker-Leads, push_open-IsPath,
  push_open-In, Covered-map, push_open-Covered,
}

on_stack≢finished : ¬ (Option.some on_stack ≡ some finished)
on_stack≢finished e = cc e

pub color-cases : (o : Option Color) → (o ≡ none) ⊎ ((o ≡ some on_stack) ⊎ (o ≡ some finished))
color-cases none = inl refl
color-cases (some on_stack) = inr (inl refl)
color-cases (some finished) = inr (inr refl)

-- A node that is finished stays so.
stays_finished :
    (colors : Colors) (n v : Text) → IsFinished colors v → IsFinished ((n, finished) ∷ colors) v
stays_finished colors n v f = elim (color_of-cases colors n v finished) [
  | inl (same, e) ↦ e
  | inr e ↦ e ∙ f
]

module _ (edges : Edges) (goals : List Text) where
  leave-IsSound :
      (n : Text) (stack : Stack) (colors : Colors)
      → IsSound edges goals ((n, true) ∷ stack) colors
      → IsSound edges goals stack ((n, finished) ∷ colors)
  leave-IsSound n stack colors s =
      let seen = λ (v : Text) (z : Seen edges colors (n ∷ []) v).
        let r : Seen edges ((n, finished) ∷ colors) [] v = elim z [
          | inl f ↦ inl (stays_finished colors n v f)
          | inr i ↦ elim i [
            | inl same ↦ inl (
                subst (IsFinished ((n, finished) ∷ colors)) (sym same)
                  (color_of_self colors n finished))
            | inr j ↦ absurd j
          ]
        ] in
        r in
      record {
        path = s.path.1;
        marked = λ u e. elim (color_of-cases colors n u finished) [
          | inl (same, f) ↦ absurd (on_stack≢finished (sym e ∙ f))
          | inr old ↦ elim (s.marked u (sym old ∙ e)) [
            | inl same ↦ absurd (
                on_stack≢finished (
                  sym e
                  ∙ subst (IsFinished ((n, finished) ∷ colors))
                      (sym (ap (λ (t : Text × Bool). t.0) same)) (color_of_self colors n finished)))
            | inr i ↦ i
          ]
        ];
        covered =
            Covered-map edges goals colors ((n, finished) ∷ colors) stack (n ∷ []) [] seen
              s.covered.1;
        ground = λ u f. elim (color_of-cases colors n u finished) [
          | inl (same, e) ↦ subst (IsGrounded (Edge edges)) same (
              grounded
                (λ v g. elim (s.covered.0 refl v g) [ inl d ↦ s.ground v d | inr i ↦ absurd i ]))
          | inr old ↦ s.ground u (sym old ∙ f)
        ];
      }

  skip-IsSound :
      (n : Text) (stack : Stack) (colors : Colors)
      → color_of colors n ≡ some finished
      → IsSound edges goals ((n, false) ∷ stack) colors
      → IsSound edges goals stack colors
  skip-IsSound n stack colors f s = record {
    path = s.path.1;
    marked = λ u e. elim (s.marked u e) [
      | inl same ↦ cc (ap (λ (t : Text × Bool). t.1) same)
      | inr i ↦ i
    ];
    covered =
        Covered-map edges goals colors colors stack (n ∷ []) []
          (λ v z. elim z [
            | inl d ↦ inl d
            | inr i ↦ elim i [
              | inl same ↦ inl (subst (IsFinished colors) (sym same) f)
              | inr j ↦ inr j
            ]
          ])
          s.covered.1;
    ground = s.ground;
  }

  enter-IsSound :
      (n : Text) (stack : Stack) (colors : Colors)
      → color_of colors n ≡ none
      → IsSound edges goals ((n, false) ∷ stack) colors
      → IsSound edges goals
          (push_open ((n, on_stack) ∷ colors) (successors edges n) ((n, true) ∷ stack))
          ((n, on_stack) ∷ colors)
  enter-IsSound n stack colors fresh s =
      let entered : Colors = (n, on_stack) ∷ colors in
      let next : List Text = successors edges n in
      let keeps = λ (v : Text) (f : IsFinished colors v).
        let r : IsFinished entered v = elim (color_of-cases colors n v on_stack) [
          | inl (same, e) ↦ cc (sym fresh ∙ ap (color_of colors) same ∙ f)
          | inr old ↦ old ∙ f
        ] in
        r in
      record {
        path = push_open-IsPath edges entered next ((n, true) ∷ stack) (λ v i. i) s.path;
        marked = λ u e.
            push_open-In edges entered next ((n, true) ∷ stack) (u, true)
              (elim (color_of-cases colors n u on_stack) [
                | inl (same, f) ↦ inl (ap (λ t. (t, true)) (sym same))
                | inr old ↦ elim (s.marked u (sym old ∙ e)) [
                  | inl same ↦ cc (ap (λ (t : Text × Bool). t.1) same)
                  | inr i ↦ inr i
                ]
              ]);
        covered = push_open-Covered edges goals entered next ((n, true) ∷ stack) [] (λ seen h. (
          λ _ v i. h v i,
          Covered-map edges goals colors entered stack (n ∷ []) (n ∷ seen)
              (λ v z. elim z [
                | inl d ↦ inl (keeps v d)
                | inr i ↦ elim i [ inl same ↦ inr (inl same) | inr j ↦ absurd j ]
              ])
              s.covered.1,
        ));
        ground = λ u f. elim (color_of-cases colors n u on_stack) [
          | inl (same, e) ↦ absurd (on_stack≢finished (sym e ∙ f))
          | inr old ↦ s.ground u (sym old ∙ f)
        ];
      }

  -- What an outcome of the search says.
  abbrev pub Says : Outcome → Type 0
  Says out_of_fuel = Unit
  Says (circular n) = Leads (Edge edges) n n
  Says (searched colors) = IsSound edges goals [] colors

  pub search_from-Says :
      (fuel : ℕ) (stack : Stack) (colors : Colors)
      → IsSound edges goals stack colors
      → Says (search_from fuel edges stack colors)
  unfolding search_from
  search_from-Says zero stack colors s = tt
  search_from-Says (suc fuel) [] colors s = s
  search_from-Says (suc fuel) ((n, true) ∷ stack) colors s =
      search_from-Says fuel stack ((n, finished) ∷ colors) (leave-IsSound n stack colors s)
  search_from-Says (suc fuel) ((n, false) ∷ stack) colors s =
      elim (color-cases (color_of colors n)) [
        | inl fresh ↦
            rw (fresh, Says) (search_from-Says fuel _ _ (enter-IsSound n stack colors fresh s))
        | inr colored ↦ elim colored [
          | inl on ↦
              rw (on, Says)
                (elim (s.marked n on) [
                  | inl same ↦ cc (ap (λ (t : Text × Bool). t.1) same)
                  | inr i ↦ marker-Leads edges stack n n s.path.0 s.path.1 i
                ])
          | inr done ↦
              rw (done, Says)
                (search_from-Says fuel stack colors (skip-IsSound n stack colors done s))
        ]
      ]
