-- ===== src/Plan/Permitted.antt =====
-- Which images backend/src/services/pipeline_plan.rs lets a job run in.
use overup.Prelude.{
  ◌≡◌, refl, sym, ◌∙◌, ap, Bool, true, ◌||◌, ◌⊎◌, inl, inr, Option, none, some, List, [], ◌∷◌, any,
  is_empty, map, Bool-cases, Option-cases, Text, codes, text_eq, text_eq_refl, arith,
}
use overup.Workflow.Words.{trim}
use overup.Workflow.Refs.{ascii_lower}
use overup.Plan.Toolchains.{
  Toolchain, catalog, find_toolchain, split_version, version_of, image_at, resolve_alias,
  is_image_of, is_catalog_image, is_reference_char,
}
use overup.Plan.Images.{
  image_for_runs_on, runs_on_os, label_image, image_allowed, is_valid_image_reference,
  image_or_default, explicit_image, choose_image,
}

or_first : (a b : Bool) → a ≡ true → (a || b) ≡ true
or_first a b h = ground arith

or_after : (a b : Bool) → b ≡ true → (a || b) ≡ true
or_after a b h = ground arith

-- The images that are always permitted: those of the catalog, and one more that labels ask for.
abbrev pub IsKnownImage : Text → Type 0
IsKnownImage image =
    (is_catalog_image image ≡ true) ⊎ (image ≡ codes "catthehacker/ubuntu:act-20.04")

image_at-is_image_of : (version : Text) (t : Toolchain) → is_image_of (image_at version t) t ≡ true
unfolding image_at
image_at-is_image_of version t = elim (Bool-cases (text_eq version (codes "24.04"))) [
  | inl e ↦ rw e (or_after _ _ (text_eq_refl t.image_2404))
  | inr e ↦ rw e (elim (Bool-cases (text_eq version (codes "22.04"))) [
    | inl f ↦ rw f (or_first _ _ (or_after _ _ (text_eq_refl t.image_2204)))
    | inr f ↦ rw f (or_first _ _ (or_first _ _ (text_eq_refl t.image_latest)))
  ])
]

found-is_image :
    (version key : Text) (ts : List Toolchain) (t : Toolchain)
    → find_toolchain key ts ≡ some t
    → any (is_image_of (image_at version t)) ts ≡ true
unfolding find_toolchain
found-is_image version key [] t e = cc e
found-is_image version key (u ∷ ts) t e = elim (Bool-cases (text_eq u.key key)) [
  | inl same ↦
      let here : u ≡ t = cc (rw same at e) in
      rw here (or_first _ _ (image_at-is_image_of version t))
  | inr other ↦ or_after _ _ (found-is_image version key ts t (rw other at e))
]

resolve_alias-is_catalog_image :
    (value : Text) (os : Option Text) (image : Text)
    → resolve_alias value os ≡ some image
    → is_catalog_image image ≡ true
unfolding resolve_alias is_catalog_image
resolve_alias-is_catalog_image value os image e =
    let v = map ascii_lower (trim value) in
    elim (Bool-cases (is_empty v || any is_reference_char v)) [
      | inl full ↦ cc (rw full at e)
      | inr bare ↦ elim (Option-cases (find_toolchain (split_version v).0 catalog)) [
        | inl f ↦ cc (rw (bare, f) at e)
        | inr (t, f) ↦
            let version = version_of (split_version v).1 os in
            let same : image_at version t ≡ image = cc (rw (bare, f) at e) in
            rw (sym same) (found-is_image version _ catalog t f)
      ]
    ]

label_image-IsKnownImage :
    (label image : Text) → label_image label ≡ some image → IsKnownImage image
unfolding label_image is_catalog_image
label_image-IsKnownImage label image e = elim (Bool-cases (text_eq label (codes "ubuntu-latest"))) [
  | inl a ↦
      (let i : codes "catthehacker/ubuntu:act-latest" ≡ image = cc (rw a at e) in
        inl (rw (sym i) refl))
  | inr a ↦ elim (Bool-cases (text_eq label (codes "ubuntu-24.04"))) [
    | inl b ↦
        (let i : codes "catthehacker/ubuntu:act-24.04" ≡ image = cc (rw (a, b) at e) in
          inl (rw (sym i) refl))
    | inr b ↦ elim (Bool-cases (text_eq label (codes "ubuntu-22.04"))) [
      | inl c ↦
          (let i : codes "catthehacker/ubuntu:act-22.04" ≡ image = cc (rw (a, b, c) at e) in
            inl (rw (sym i) refl))
      | inr c ↦ elim (Bool-cases (text_eq label (codes "ubuntu-20.04"))) [
        | inl d ↦ inr (cc (rw (a, b, c, d) at e))
        | inr d ↦ cc (rw (a, b, c, d) at e)
      ]
    ]
  ]
]

image_for_runs_on-IsKnownImage :
    (labels : List Text) (image : Text) → image_for_runs_on labels ≡ some image → IsKnownImage image
unfolding image_for_runs_on
image_for_runs_on-IsKnownImage [] image e = cc e
image_for_runs_on-IsKnownImage (label ∷ labels) image e =
    elim (Option-cases (label_image (map ascii_lower (trim label)))) [
      | inl f ↦ image_for_runs_on-IsKnownImage labels image (rw (image_for_runs_on, f) at e)
      | inr (i, f) ↦
          (let same : i ≡ image = cc (rw (image_for_runs_on, f) at e) in
            label_image-IsKnownImage _ image (f ∙ ap some same))
    ]

module _ (default_image : Text) (allowlist : List Text) where
  -- What a job may run in: a known image, the configured one, or a well-formed one that the operator allows.
  abbrev pub IsPermitted : Text → Type 0
  IsPermitted image =
      IsKnownImage image
      ⊎ ((image ≡ default_image)
          ⊎ ((is_valid_image_reference image ≡ true) × (image_allowed image allowlist ≡ true)))

  image_or_default-IsPermitted :
      (runs_on : List Text) → IsPermitted (image_or_default default_image runs_on)
  image_or_default-IsPermitted runs_on = elim (Option-cases (image_for_runs_on runs_on)) [
    | inl e ↦ rw (image_or_default, e) (inr (inl refl))
    | inr (image, e) ↦
        rw (image_or_default, e) (inl (image_for_runs_on-IsKnownImage runs_on image e))
  ]

  explicit_image-IsPermitted :
      (runs_on : List Text) (reference : Text) (notices : List Text)
      → IsPermitted (explicit_image default_image allowlist runs_on reference notices).0
  unfolding explicit_image
  explicit_image-IsPermitted runs_on reference notices =
      elim (Bool-cases (is_valid_image_reference reference)) [
        | inr n ↦ rw n (image_or_default-IsPermitted runs_on)
        | inl v ↦ rw v (elim (Bool-cases (image_allowed reference allowlist)) [
          | inr n ↦ rw n (image_or_default-IsPermitted runs_on)
          | inl allowed ↦ rw allowed (inr (inr (v, allowed)))
        ])
      ]

  pub choose_image-IsPermitted :
      (runs_on : List Text) (container : Option Text) (notices : List Text)
      → IsPermitted (choose_image default_image allowlist runs_on container notices).0
  unfolding choose_image
  choose_image-IsPermitted runs_on none notices = image_or_default-IsPermitted runs_on
  choose_image-IsPermitted runs_on (some reference) notices =
      elim (Option-cases (resolve_alias reference (runs_on_os runs_on))) [
        | inl e ↦ rw (choose_image, e) (explicit_image-IsPermitted runs_on reference notices)
        | inr (image, e) ↦
            rw (choose_image, e) (inl (inl (resolve_alias-is_catalog_image reference _ image e)))
      ]
