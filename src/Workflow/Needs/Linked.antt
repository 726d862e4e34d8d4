-- ===== src/Workflow/Needs/Linked.antt =====
-- The first loop of `validate_needs` (backend/src/services/workflow_parse.rs): which edges it adds, and when it
-- has nothing to report.
use mathlib.Core.Bool.{true≢false}
use overup.Prelude.{
  ◌≡◌, ◌≢◌, ◌↔◌, refl, sym, ◌∙◌, ◌⊎◌, inl, inr, true, false, List, [], ◌∷◌, ◌++◌, In, All, Exists,
  Text, text_eq, text_eq_iff, contains, Bool-cases, arith,
}
use overup.Workflow.{Diagnostic, ParsedJob}
use overup.Workflow.Needs.{
  Edges, successors, push_edge, Links, push, link_need, link_needs, link_jobs,
}

pub In-concat : {A : Type 0} (xs : List A) (v y : A) → In v (xs ++ y ∷ []) ↔ (In v xs ⊎ (v ≡ y))
In-concat [] v y = (
  λ i. elim i [ inl e ↦ inr e | inr j ↦ absurd j ],
  λ i. elim i [ inl j ↦ absurd j | inr e ↦ inl e ],
)
In-concat (x ∷ xs) v y =
    let (to, from) = In-concat xs v y in
    (
      λ i. elim i [
        | inl e ↦ inl (inl e)
        | inr j ↦ elim (to j) [ inl k ↦ inl (inr k) | inr e ↦ inr e ]
      ],
      λ i. elim i [
        | inl j ↦ elim j [ inl e ↦ inl e | inr k ↦ inr (from (inl k)) ]
        | inr e ↦ inr (from (inr e))
      ],
    )

pub contains_iff : (ids : List Text) (v : Text) → (contains ids v ≡ true) ↔ In v ids
contains_iff [] v = (λ e. absurd (true≢false (sym e)), λ i. absurd i)
contains_iff (x ∷ ids) v =
    let (to, from) = contains_iff ids v in
    (
      λ e. elim (Bool-cases (text_eq x v)) [
        | inl hit ↦ inl (sym ((text_eq_iff x v).0 hit))
        | inr miss ↦ inr (to (rw miss at e))
      ],
      elim [
        | inl e ↦ rw ((text_eq_iff x v).1 (sym e)) refl
        | inr later ↦ ground (arith, from later)
      ],
    )

differ : (s t : Text) → text_eq s t ≡ false → s ≢ t
differ s t miss same = absurd (true≢false (sym ((text_eq_iff s t).1 same) ∙ miss))

push_edge_iff :
    (key need : Text) (edges : Edges) (u v : Text)
    → In v (successors (push_edge key need edges) u)
      ↔ (In v (successors edges u) ⊎ ((key ≡ u) × (v ≡ need)))
unfolding successors push_edge
push_edge_iff key need [] u v = elim (Bool-cases (text_eq key u)) [
  | inl hit ↦ rw hit (
    λ i. elim i [ inl e ↦ inr ((text_eq_iff key u).0 hit, e) | inr j ↦ absurd j ],
    λ i. elim i [ inl j ↦ absurd j | inr (same, e) ↦ inl e ],
  )
  | inr miss ↦ rw miss (
    λ i. absurd i,
    λ i. elim i [ inl j ↦ absurd j | inr (same, e) ↦ absurd (differ key u miss same) ],
  )
]
push_edge_iff key need ((k, needs) ∷ edges) u v = elim (Bool-cases (text_eq k key)) [
  | inl found ↦
      rw (found, successors)
        (elim (Bool-cases (text_eq k u)) [
          | inl hit ↦ rw hit (
            λ i. elim ((In-concat needs v need).0 i) [
              | inl old ↦ inl old
              | inr e ↦ inr (sym ((text_eq_iff k key).0 found) ∙ (text_eq_iff k u).0 hit, e)
            ],
            λ i. (In-concat needs v need).1 (elim i [ inl old ↦ inl old | inr (same, e) ↦ inr e ]),
          )
          | inr miss ↦ rw miss (
            λ i. inl i,
            λ i. elim i [
              | inl old ↦ old
              | inr (same, e) ↦ absurd (differ k u miss ((text_eq_iff k key).0 found ∙ same))
            ],
          )
        ])
  | inr other ↦
      rw (other, successors)
        (elim (Bool-cases (text_eq k u)) [
          | inl hit ↦ rw hit (
            λ i. inl i,
            λ i. elim i [
              | inl old ↦ old
              | inr (same, e) ↦ absurd (differ k key other ((text_eq_iff k u).0 hit ∙ sym same))
            ],
          )
          | inr miss ↦ rw miss (push_edge_iff key need edges u v)
        ])
]

-- A reference that is neither to the job itself nor to no job.
abbrev pub IsResolved : List Text → Text → Text → Type 0
IsResolved ids key need = (key ≢ need) × In need ids

need-cases :
    (ids : List Text) (key : Text) (links : Links) (need : Text)
    → (IsResolved ids key need
        × (link_need ids key links need ≡ record links { edges = push_edge key need links.edges }))
      ⊎ ((¬ IsResolved ids key need)
          × (d : Diagnostic) × (link_need ids key links need ≡ push d links))
unfolding link_need
need-cases ids key links need = elim (Bool-cases (text_eq key need)) [
  | inl self ↦ rw self (inr (λ r. r.0 ((text_eq_iff key need).0 self), _, refl))
  | inr other ↦ rw other (elim (Bool-cases (contains ids need)) [
    | inl known ↦ rw known (inl ((differ key need other, (contains_iff ids need).0 known), refl))
    | inr unknown ↦
        rw unknown
          (inr (λ r. absurd (true≢false (sym ((contains_iff ids need).1 r.1) ∙ unknown)), _, refl))
  ])
]

-- The edges that the loop has added, and when it has reported nothing.
pub record IsLinked (links links' : Links) (Added : Text → Text → Type 0) (Fine : Type 0)
    : Type 0 where
  pub edges_iff :
      (u v : Text)
      → In v (successors links'.edges u) ↔ (In v (successors links.edges u) ⊎ Added u v)
  pub pushed_iff : (links'.pushed ≡ []) ↔ ((links.pushed ≡ []) × Fine)

IsLinked-then :
    (l l' l'' : Links) (A B : Text → Text → Type 0) (F G : Type 0)
    → IsLinked l l' A F
    → IsLinked l' l'' B G
    → IsLinked l l'' (λ u v. A u v ⊎ B u v) (F × G)
IsLinked-then l l' l'' A B F G p q = record {
  edges_iff = λ u v. (
    λ i. elim ((q.edges_iff u v).0 i) [
      | inl j ↦ elim ((p.edges_iff u v).0 j) [ inl k ↦ inl k | inr a ↦ inr (inl a) ]
      | inr b ↦ inr (inr b)
    ],
    λ i. (q.edges_iff u v).1 (elim i [
      | inl k ↦ inl ((p.edges_iff u v).1 (inl k))
      | inr c ↦ elim c [ inl a ↦ inl ((p.edges_iff u v).1 (inr a)) | inr b ↦ inr b ]
    ]),
  );
  pushed_iff = (
    λ e. let (e', g) = q.pushed_iff.0 e in let (e'', f) = p.pushed_iff.0 e' in (e'', (f, g)),
    λ (e, (f, g)). q.pushed_iff.1 (p.pushed_iff.1 (e, f), g),
  );
}

IsLinked-none : (l : Links) → IsLinked l l (λ u v. ⊥) Unit
IsLinked-none l = record {
  edges_iff = λ u v. (λ i. inl i, λ i. elim i [ inl j ↦ j | inr b ↦ absurd b ]);
  pushed_iff = (λ e. (e, tt), λ (e, _). e);
}

snoc-ne-nil : {A : Type 0} (xs : List A) (x : A) → xs ++ x ∷ [] ≢ []
snoc-ne-nil [] x e = cc e
snoc-ne-nil (y ∷ xs) x e = cc e

module _ (ids : List Text) where
  abbrev pub Added : Text → List Text → Text → Text → Type 0
  Added key needs u v = Exists (λ need. (key ≡ u) × (v ≡ need) × IsResolved ids key need) needs

  link_need-IsLinked :
      (key : Text) (links : Links) (need : Text)
      → IsLinked links
          (link_need ids key links need)
          (λ u v. (key ≡ u) × (v ≡ need) × IsResolved ids key need)
          (IsResolved ids key need)
  link_need-IsLinked key links need = elim (need-cases ids key links need) [
    | inl (fine, e) ↦ rw e (record {
      edges_iff = λ u v. (
        λ i. elim ((push_edge_iff key need links.edges u v).0 i) [
          | inl old ↦ inl old
          | inr (same, n) ↦ inr (same, n, fine)
        ],
        λ i.
            (push_edge_iff key need links.edges u v).1
              (elim i [ inl old ↦ inl old | inr (same, n, f) ↦ inr (same, n) ]),
      );
      pushed_iff = (λ e. (e, fine), λ (e, _). e);
    })
    | inr (wrong, d, e) ↦ rw e (record {
      edges_iff =
          λ u v. (λ i. inl i, λ i. elim i [ inl old ↦ old | inr (same, n, f) ↦ absurd (wrong f) ]);
      pushed_iff = (λ e. absurd (snoc-ne-nil links.pushed d e), λ (e, f). absurd (wrong f));
    })
  ]

  link_needs-IsLinked :
      (key : Text) (needs : List Text) (links : Links)
      → IsLinked links
          (link_needs ids key needs links)
          (Added key needs)
          (All (IsResolved ids key) needs)
  unfolding link_needs
  link_needs-IsLinked key [] links = IsLinked-none links
  link_needs-IsLinked key (need ∷ needs) links =
      IsLinked-then links (link_need ids key links need) _ _ _ _ _
        (link_need-IsLinked key links need)
        (link_needs-IsLinked key needs (link_need ids key links need))

  pub link_jobs-IsLinked :
      (jobs : List ParsedJob) (links : Links)
      → IsLinked links
          (link_jobs ids jobs links)
          (λ u v. Exists (λ j. Added j.key j.needs u v) jobs)
          (All (λ j. All (IsResolved ids j.key) j.needs) jobs)
  unfolding link_jobs
  link_jobs-IsLinked [] links = IsLinked-none links
  link_jobs-IsLinked (job ∷ jobs) links =
      IsLinked-then links (link_needs ids job.key job.needs links) _ _ _ _ _
        (link_needs-IsLinked job.key job.needs links)
        (link_jobs-IsLinked jobs (link_needs ids job.key job.needs links))
