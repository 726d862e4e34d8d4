-- ===== src/Protocol/Paths.antt =====
-- What a path that `normalize_relative_path` (protocol/src/lib.rs) accepts is good for.
use mathlib.Core.Bool.{true≢false}
use overup.Prelude.{
  ℕ, ◌≤◌, ◌≡◌, refl, sym, ◌∙◌, subst, ap, Bool, true, false, ◌&&◌, ◌||◌, Option, none, some, List,
  [], ◌∷◌, if◌then◌else◌, ltb, ◌==◌, length, all, is_empty, arith, Bool-cases, &&_iff, ==_iff, inl,
  inr, Text, byte_len,
}
use overup.Protocol.{
  strip_dot_slash, strip_slashes, segments_of, is_dot, is_dot_dot, is_safe_segment,
  normalize_relative_path, max_relative_path_bytes, max_relative_path_segments,
}

-- The walk of a file system along the segments of a path, from a directory given by its names, the
-- innermost first; there is none above the root of the workspace.
abbrev pub parent : List Text → Option (List Text)
parent [] = none
parent (d ∷ dir) = some dir

abbrev pub enter : Text → List Text → Option (List Text)
enter s dir =
    if is_empty s || is_dot s then some dir else if is_dot_dot s then parent dir else some (s ∷ dir)

abbrev pub walk : List Text → List Text → Option (List Text)
walk [] dir = some dir
walk (s ∷ segments) dir = elim (enter s dir) [ none ↦ none | some d ↦ walk segments d ]

pub ltb-le : (m n : ℕ) → ltb m n ≡ false → n ≤ m
ltb-le m n h = ground arith

-- The directory that the segments name, below the given one.
abbrev pub below : List Text → List Text → List Text
below [] dir = dir
below (s ∷ segments) dir = below segments (s ∷ dir)

enter-safe : (s : Text) (dir : List Text) → is_safe_segment s ≡ true → enter s dir ≡ some (s ∷ dir)
enter-safe s dir h = ground arith

pub walk-safe :
    (segments dir : List Text)
    → all is_safe_segment segments ≡ true
    → walk segments dir ≡ some (below segments dir)
walk-safe [] dir h = refl
walk-safe (s ∷ segments) dir h =
    let safe = (&&_iff (is_safe_segment s) (all is_safe_segment segments)).0 h in
    rw (walk, enter-safe s dir safe.0) (walk-safe segments (s ∷ dir) safe.1)

strip_slashes_twice : (s : Text) → strip_slashes (strip_slashes s) ≡ strip_slashes s
strip_slashes_twice [] = refl
strip_slashes_twice (c ∷ s) = elim (Bool-cases (is_empty (strip_slashes s) && c == b'/')) [
  | inl e ↦ rw e refl
  | inr e ↦ rw e (rw (strip_slashes_twice s, e) refl)
]

dot_slash_unsafe : (s : Text) → all is_safe_segment (segments_of (b'.' ∷ b'/' ∷ s)) ≡ false
dot_slash_unsafe s = refl

no_dot_slash :
    (path : Text) → all is_safe_segment (segments_of path) ≡ true → strip_dot_slash path ≡ path
no_dot_slash [] h = refl
no_dot_slash (c ∷ []) h = refl
no_dot_slash (c ∷ d ∷ s) h = elim (Bool-cases (c == b'.' && d == b'/')) [
  | inr e ↦ rw e refl
  | inl e ↦
      (let dot : c ≡ b'.' = (==_iff c b'.').0 ((&&_iff (c == b'.') (d == b'/')).0 e).0 in
        let slash : d ≡ b'/' = (==_iff d b'/').0 ((&&_iff (c == b'.') (d == b'/')).0 e).1 in
        absurd (
          true≢false (
            sym (
              subst (λ x. all is_safe_segment (segments_of (b'.' ∷ x ∷ s)) ≡ true) slash
                (subst (λ x. all is_safe_segment (segments_of (x ∷ d ∷ s)) ≡ true) dot h))
            ∙ dot_slash_unsafe s)))
]

-- What the checks say of a path.
pub record Accepted (path : Text) : Type 0 where
  pub filled : is_empty path ≡ false
  pub short : ltb max_relative_path_bytes (byte_len path) ≡ false
  pub few : ltb max_relative_path_segments (length (segments_of path)) ≡ false
  pub safe : all is_safe_segment (segments_of path) ≡ true

gates :
    (a b c d : Bool) (p q : Text)
    → (if a || b then none else if c then none else if d then some p else none) ≡ some q
    → (p ≡ q) × (a ≡ false) × (b ≡ false) × (c ≡ false) × (d ≡ true)
gates a b c d p q e = ground arith

pub accepted :
    (value path : Text)
    → normalize_relative_path value ≡ some path
    → (strip_slashes (strip_dot_slash value) ≡ path) × Accepted path
unfolding normalize_relative_path
accepted value path e =
    let p = strip_slashes (strip_dot_slash value) in
    let (same, a, b, c, d) = gates (is_empty p) _ _ _ p path e in
    (same, subst Accepted same (record { filled = a; short = b; few = c; safe = d }))

-- An accepted path is within the limits, and each of its segments is entered in turn, from any directory:
-- the walk never goes up, and ends in the directory that the segments name below the one it started
-- in.
pub normalize_relative_path-walk :
    (value path : Text) (dir : List Text)
    → normalize_relative_path value ≡ some path
    → (byte_len path ≤ 255)
      × (length (segments_of path) ≤ 32)
      × (walk (segments_of path) dir ≡ some (below (segments_of path) dir))
normalize_relative_path-walk value path dir e =
    let (_, ok) = accepted value path e in
    (
      ltb-le 255 (byte_len path) ok.short,
      ltb-le 32 (length (segments_of path)) ok.few,
      walk-safe (segments_of path) dir ok.safe,
    )

-- The runner's check of a path that the server has normalized gives the same path.
pub normalize_relative_path_idempotent :
    (value path : Text)
    → normalize_relative_path value ≡ some path
    → normalize_relative_path path ≡ some path
unfolding normalize_relative_path
normalize_relative_path_idempotent value path e =
    let (same, ok) = accepted value path e in
    let plain : strip_slashes (strip_dot_slash path) ≡ path =
      ap strip_slashes (no_dot_slash path ok.safe)
      ∙ subst (λ x. strip_slashes x ≡ x) same (strip_slashes_twice (strip_dot_slash value)) in
    rw plain (rw (ok.filled, ok.short, ok.few, ok.safe) refl)
