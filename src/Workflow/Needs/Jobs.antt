-- ===== src/Workflow/Needs/Jobs.antt =====
-- The outer loop of the search of `validate_needs` (backend/src/services/workflow_parse.rs): each job is
-- finished when no cycle is found, and so no path leads back to its source.
use overup.Prelude.{sym, subst, false, inl, inr, List, [], ◌∷◌, In, Text}
use overup.Workflow.Needs.{
  Edges, Colors, color_of, Outcome, out_of_fuel, circular, searched, search_jobs, and_then,
}
use overup.Workflow.Needs.Acyclic.{Leads}
use overup.Workflow.Needs.Invariant.{Edge, IsFinished, IsSound}
use overup.Workflow.Needs.Search.{Says, search_from-Says, color-cases}

module _ (edges : Edges) (ids : List Text) where
  abbrev pub JobsSay : List Text → List Text → Outcome → Type 0
  JobsSay goals keys out_of_fuel = Unit
  JobsSay goals keys (circular n) = Leads (Edge edges) n n
  JobsSay goals keys (searched colors) =
      IsSound edges goals [] colors × ((v : Text) → In v keys → IsFinished colors v)

  -- A search starts from a job without a color.
  start-IsSound :
      (goals : List Text) (key : Text) (colors : Colors)
      → IsSound edges goals [] colors
      → IsSound edges (key ∷ goals) ((key, false) ∷ []) colors
  start-IsSound goals key colors s = record {
    path = (tt, tt);
    marked = λ u e. inr (s.marked u e);
    covered = (
      λ e. cc e,
      λ v i. elim i [
        | inl same ↦ inr (inl same)
        | inr old ↦ elim (s.covered v old) [ inl f ↦ inl f | inr j ↦ absurd j ]
      ],
    );
    ground = s.ground;
  }

  -- The search that a job starts has finished it.
  then-Say :
      (goals keys : List Text) (key : Text) (out : Outcome)
      → JobsSay (key ∷ goals) keys out
      → JobsSay goals (key ∷ keys) out
  then-Say goals keys key out_of_fuel h = tt
  then-Say goals keys key (circular n) h = h
  then-Say goals keys key (searched colors) (s, rest) =
      let done = λ (v : Text) (i : In v (key ∷ goals)).
        let r : IsFinished colors v = elim (s.covered v i) [ inl f ↦ f | inr j ↦ absurd j ] in r in
      (
        record {
          path = tt;
          marked = s.marked;
          covered = λ v i. inl (done v (inr i));
          ground = s.ground;
        },
        λ v i. elim i [ inl same ↦ done v (inl same) | inr later ↦ rest v later ],
      )

  and_then-Say :
      (goals keys : List Text) (key : Text) (out : Outcome) (rest : Colors → Outcome)
      → Says edges (key ∷ goals) out
      → ((colors : Colors)
          → IsSound edges (key ∷ goals) [] colors
          → JobsSay (key ∷ goals) keys (rest colors))
      → JobsSay goals (key ∷ keys) (and_then out rest)
  and_then-Say goals keys key out_of_fuel rest h f = tt
  and_then-Say goals keys key (circular n) rest h f = h
  and_then-Say goals keys key (searched colors) rest h f = then-Say goals keys key _ (f colors h)

  pub search_jobs-Say :
      (keys goals : List Text) (colors : Colors)
      → IsSound edges goals [] colors
      → JobsSay goals keys (search_jobs edges ids keys colors)
  unfolding search_jobs
  search_jobs-Say [] goals colors s = (s, λ v i. absurd i)
  search_jobs-Say (key ∷ keys) goals colors s = elim (color-cases (color_of colors key)) [
    | inl fresh ↦
        rw (fresh, JobsSay)
          (and_then-Say goals keys key _ _
            (search_from-Says edges (key ∷ goals) _ _ _ (start-IsSound goals key colors s))
            (search_jobs-Say keys (key ∷ goals)))
    | inr colored ↦ elim colored [
      | inl on ↦ absurd (s.marked key on)
      | inr f ↦
          rw (f, JobsSay)
            (then-Say goals keys key _ (
              search_jobs-Say keys (key ∷ goals) colors (record {
                path = tt;
                marked = s.marked;
                covered = λ v i. elim i [
                  | inl same ↦ inl (subst (IsFinished colors) (sym same) f)
                  | inr old ↦ s.covered v old
                ];
                ground = s.ground;
              })))
    ]
  ]
