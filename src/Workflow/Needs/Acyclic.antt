-- ===== src/Workflow/Needs/Acyclic.antt =====
-- What a cycle is, for the search of backend/src/services/workflow_parse.rs: a job that leads back to
-- itself. A node is grounded if each way on from it ends.
use overup.Prelude.{◌≡◌, refl, sym, subst, ◌⊎◌, inl, inr, Text}

-- A path of one edge or more.
pub data Leads (E : Text → Text → Type 0) (u : Text) : Text → Type 0 where
  edge : {v : Text} → E u v → Leads E u v
  further : {v w : Text} → Leads E u v → E v w → Leads E u w

abbrev pub IsAcyclic : (Text → Text → Type 0) → Type 0
IsAcyclic E = (u : Text) → ¬ Leads E u u

pub data IsGrounded (E : Text → Text → Type 0) : Text → Type 0 where
  grounded : {u : Text} → ((v : Text) → E u v → IsGrounded E v) → IsGrounded E u

pub Leads-map :
    {E F : Text → Text → Type 0}
    → ((u v : Text) → E u v → F u v)
    → {u v : Text} → Leads E u v
    → Leads F u v
Leads-map f (edge e) = edge (f _ _ e)
Leads-map f (further l e) = further (Leads-map f l) (f _ _ e)

-- The source of a path has an edge.
pub Leads-first :
    {E : Text → Text → Type 0} {u w : Text}
    → Leads E u w
    → (v : Text) × E u v × ((v ≡ w) ⊎ Leads E v w)
Leads-first (edge {v} e) = (v, e, inl refl)
Leads-first {E} (further {v} {w} l e) =
    let (x, first, rest) = Leads-first l in
    (
      x,
      first,
      inr (elim rest [
        | inl same ↦ edge (subst (λ y. E y w) (sym same) e)
        | inr more ↦ further more e
      ]),
    )

-- A cycle can be entered one edge later.
rotated : {E : Text → Text → Type 0} {u : Text} → Leads E u u → (v : Text) × E u v × Leads E v v
rotated {E} {u} l =
    let (v, first, rest) = Leads-first l in
    (
      v,
      first,
      elim rest [
        | inl same ↦ edge (subst (λ y. E y v) (sym same) first)
        | inr more ↦ further more first
      ],
    )

pub IsGrounded-acyclic : {E : Text → Text → Type 0} {u : Text} → IsGrounded E u → ¬ Leads E u u
IsGrounded-acyclic (grounded next) l =
    let (v, first, rest) = rotated l in IsGrounded-acyclic (next v first) rest
