-- ===== src/Workflow/Files/Inside.antt =====
-- The paths that `detect_file_refs` (backend/src/services/workflow_parse.rs) finds are inside the workspace.
use overup.Prelude.{
  ◌+◌, ◌≤◌, ◌≡◌, refl, ◌∙◌, ap, ap₂, subst, Bool, true, not, ◌&&◌, inl, inr, Option, none, some,
  List, [], ◌∷◌, ◌++◌, any, all, All, ◌==◌, leb, leb→le, length, Bool-cases, arith, Text, byte_len,
  text_eq,
}
use overup.Protocol.{
  is_safe_segment, segments_of, split_first, normalize_relative_path, max_relative_path_bytes,
}
use overup.Protocol.Paths.{accepted, ltb-le}
use overup.Workflow.Words.{split_whitespace}
use overup.Workflow.Files.{
  max_file_refs, WorkdirValue, absent, dynamic, static, invalid, static_path, FileRef, Kind,
  workdir, script, same_kind, ref_leb, insert_ref, insert_workdir, or_outer, is_dynamic, scripts_of,
  found_path, run_refs,
}
use overup.Workflow.Scripts.{is_shell_char, is_candidate, join, checked_join, script_ref}

-- A path of at most 255 bytes whose segments are all names.
abbrev pub IsInside : Text → Type 0
IsInside path =
    (byte_len path ≤ max_relative_path_bytes) × (all is_safe_segment (segments_of path) ≡ true)

pub normalize-IsInside :
    (value path : Text) → normalize_relative_path value ≡ some path → IsInside path
normalize-IsInside value path e =
    let (_, ok) = accepted value path e in (ltb-le 255 (byte_len path) ok.short, ok.safe)

all-append :
    {A : Type 0} (p : A → Bool) (xs ys : List A) → all p (xs ++ ys) ≡ (all p xs && all p ys)
all-append p [] ys = refl
all-append p (x ∷ xs) ys = ground (arith, all-append p xs ys)

split_first-join :
    (base path : Text)
    → split_first (base ++ (b'/' ∷ path))
      ≡ ((split_first base).0, (split_first base).1 ++ segments_of path)
split_first-join [] path = refl
split_first-join (c ∷ base) path = elim (Bool-cases (c == b'/')) [
  | inl e ↦ rw e (rw (split_first-join base path) refl)
  | inr e ↦ rw e (rw (split_first-join base path) refl)
]

-- The segments of two paths that are joined.
segments-join :
    (base path : Text)
    → all is_safe_segment (segments_of base) ≡ true
    → all is_safe_segment (segments_of path) ≡ true
    → all is_safe_segment (segments_of (base ++ (b'/' ∷ path))) ≡ true
segments-join base path b p =
    ap (λ (t : Text × List Text). all is_safe_segment (t.0 ∷ t.1)) (split_first-join base path)
    ∙ all-append is_safe_segment (segments_of base) (segments_of path)
    ∙ ap₂ ◌&&◌ b p

abbrev pub AllInside : List FileRef → Type 0
AllInside refs = All (λ (r : FileRef). IsInside r.0) refs

insert_ref-AllInside :
    (path : Text) (kind : Kind) (refs : List FileRef)
    → IsInside path
    → AllInside refs
    → AllInside (insert_ref (path, kind) refs)
unfolding insert_ref
insert_ref-AllInside path kind [] p h = (p, tt)
insert_ref-AllInside path kind ((q, l) ∷ refs) p (h, hs) =
    elim (Bool-cases (text_eq path q && same_kind kind l)) [
      | inl same ↦ rw same (h, hs)
      | inr other ↦ rw other (elim (Bool-cases (ref_leb (path, kind) (q, l))) [
        | inl before ↦ rw before (p, (h, hs))
        | inr after ↦ rw after (h, insert_ref-AllInside path kind refs p hs)
      ])
    ]

-- The directory of a step or a job, where it is known.
abbrev pub IsStaticInside : WorkdirValue → Type 0
IsStaticInside (static path) = IsInside path
IsStaticInside _ = Unit

pub insert_workdir-AllInside :
    (wd : WorkdirValue) (refs : List FileRef)
    → IsStaticInside wd
    → AllInside refs
    → AllInside (insert_workdir wd refs)
unfolding static_path
insert_workdir-AllInside absent refs p h = h
insert_workdir-AllInside dynamic refs p h = h
insert_workdir-AllInside (static path) refs p h = insert_ref-AllInside path workdir refs p h
insert_workdir-AllInside invalid refs p h = h

pub or_outer-IsStaticInside :
    (wd outer : WorkdirValue)
    → IsStaticInside wd
    → IsStaticInside outer
    → IsStaticInside (or_outer wd outer)
or_outer-IsStaticInside absent outer p q = q
or_outer-IsStaticInside dynamic outer p q = tt
or_outer-IsStaticInside (static path) outer p q = p
or_outer-IsStaticInside invalid outer p q = tt

-- Where a base is given it is inside.
abbrev IsBase : Option Text → Type 0
IsBase none = Unit
IsBase (some base) = IsInside base

static_path-IsBase : (wd : WorkdirValue) → IsStaticInside wd → IsBase (static_path wd)
unfolding static_path
static_path-IsBase absent p = tt
static_path-IsBase dynamic p = tt
static_path-IsBase (static path) p = p
static_path-IsBase invalid p = tt

join-safe :
    (base : Option Text) (path : Text)
    → IsBase base
    → IsInside path
    → all is_safe_segment (segments_of (join base path)) ≡ true
join-safe none path b p = p.1
join-safe (some base) path b p = segments-join base path b.1 p.1

checked_join-IsInside :
    (base found : Option Text) (path : Text)
    → IsBase base
    → ((p : Text) → found ≡ some p → IsInside p)
    → checked_join base found ≡ some path
    → IsInside path
checked_join-IsInside base none path b h e = cc e
checked_join-IsInside base (some p) path b h e =
    elim (Bool-cases (leb (byte_len (join base p)) max_relative_path_bytes)) [
      | inl fits ↦
          subst IsInside (cc (rw fits at e)) (leb→le _ _ fits, join-safe base p b (h p refl))
      | inr long ↦ cc (rw long at e)
    ]

script_ref-IsInside :
    (token : Text) (base : Option Text) (path : Text)
    → IsBase base
    → script_ref token base ≡ some path
    → IsInside path
unfolding script_ref
script_ref-IsInside token base path b e = elim (Bool-cases (any is_shell_char token)) [
  | inl shell ↦ cc (rw (shell, script_ref) at e)
  | inr plain ↦ elim (Bool-cases (not (is_candidate token))) [
    | inl other ↦ cc (rw other at (rw (plain, script_ref) at e))
    | inr named ↦
        checked_join-IsInside base (normalize_relative_path token) path b
          (λ p f. normalize-IsInside token p f) (rw named at (rw (plain, script_ref) at e))
  ]
]

add_script-AllInside :
    (found : Option Text) (refs : List FileRef)
    → ((p : Text) → found ≡ some p → IsInside p)
    → AllInside refs
    → AllInside (elim found [ none ↦ refs | some path ↦ insert_ref (path, script) refs ])
add_script-AllInside none refs p h = h
add_script-AllInside (some path) refs p h = insert_ref-AllInside path script refs (p path refl) h

scripts_of-AllInside :
    (base : Option Text) (tokens : List Text) (refs : List FileRef)
    → IsBase base
    → AllInside refs
    → AllInside (scripts_of base tokens refs)
unfolding scripts_of
scripts_of-AllInside base [] refs b h = h
scripts_of-AllInside base (token ∷ tokens) refs b h =
    elim (Bool-cases (leb (max_file_refs + max_file_refs) (length refs))) [
      | inl full ↦ rw full h
      | inr room ↦ rw room (
          scripts_of-AllInside base tokens _ b (
            add_script-AllInside (script_ref token base) refs
              (λ p f. script_ref-IsInside token base p b f) h))
    ]

pub found_path-IsStaticInside :
    (raw path : Text) (found : Option Text)
    → normalize_relative_path raw ≡ found
    → IsStaticInside (found_path raw path found).0
unfolding found_path
found_path-IsStaticInside raw path none e = tt
found_path-IsStaticInside raw path (some p) e = normalize-IsInside raw p e

pub run_refs-AllInside :
    (effective : WorkdirValue) (run : Option Text) (refs : List FileRef)
    → IsStaticInside effective
    → AllInside refs
    → AllInside (run_refs effective run refs)
unfolding run_refs
run_refs-AllInside effective none refs o h = h
run_refs-AllInside effective (some run) refs o h = elim (Bool-cases (is_dynamic effective)) [
  | inl dyn ↦ rw dyn h
  | inr known ↦
      rw known
        (scripts_of-AllInside _ (split_whitespace run) refs (static_path-IsBase effective o) h)
]
