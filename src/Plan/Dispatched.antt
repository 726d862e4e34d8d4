-- ===== src/Plan/Dispatched.antt =====
-- The working directory of a step from its plan (backend/src/services/pipeline_plan.rs) to its dispatch
-- (`resolve_step_workdir` of backend/src/services/scheduler.rs).
use overup.Prelude.{
  ℕ, ◌≡◌, refl, ◌∙◌, true, false, inl, inr, Option, none, some, [], ◌∷◌, all, ◌==◌, Bool-cases,
  Option-cases, &&_iff, arith, Text, codes,
}
use overup.Protocol.{split_first, is_path_char, is_safe_segment, normalize_relative_path}
use overup.Protocol.Paths.{accepted, normalize_relative_path_idempotent}
use overup.Workflow.Words.{strip_prefix, split_once, includes}
use overup.Workflow.Words.Occurs.{split_once-cons}
use overup.Workflow.Files.Detected.{IsReached}
use overup.Workflow.Substitute.Blocks.{substitute_context_refs_lem}
use overup.Plan.{carried, carried_or_bad, plan_working_directory}
use overup.Plan.Limits.{normalized-IsReached}
use overup.Plan.Workdirs.{
  Workdir, root, at, refused, unended, at_or_refused, check_resolved, resolve_step_workdir,
}

-- What the runner may be told: the root of the workspace, a path that stays in it, or nothing since the
-- dispatch fails.
abbrev pub IsSafe : Workdir → Type 0
IsSafe root = Unit
IsSafe (at path) = IsReached path
IsSafe refused = Unit
IsSafe unended = ⊥

checked-IsSafe : (resolved : Text) → IsSafe (check_resolved (some resolved))
checked-IsSafe resolved = elim (Option-cases (normalize_relative_path resolved)) [
  | inl e ↦ rw (check_resolved, at_or_refused, e) tt
  | inr (path, e) ↦ rw (check_resolved, at_or_refused, e) (normalized-IsReached resolved path e)
]

-- Whatever was stored with the step, and whatever the values of the secrets and variables in it are, its
-- directory is resolved to the root, to a path that never leaves the workspace, or refused.
pub resolve_step_workdir-IsSafe :
    (lookup : Text → Text → Option Text) (stored : Option Text)
    → IsSafe (resolve_step_workdir lookup stored)
unfolding resolve_step_workdir
resolve_step_workdir-IsSafe lookup none = tt
resolve_step_workdir-IsSafe lookup (some raw) = elim (Bool-cases (includes (codes "${{") raw)) [
  | inr e ↦ rw e (checked-IsSafe raw)
  | inl e ↦
      let (blocks, tail, _, ends) = substitute_context_refs_lem raw in
      rw (e, ends lookup) (checked-IsSafe _)
]

not_here : (c d : ℕ) (s ds : Text) → (d == c) ≡ false → strip_prefix (d ∷ ds) (c ∷ s) ≡ none
unfolding strip_prefix
not_here c d s ds e = rw e refl

not_at :
    (needle s : Text) (c : ℕ)
    → strip_prefix needle (c ∷ s) ≡ none
    → split_once needle s ≡ none
    → split_once needle (c ∷ s) ≡ none
not_at needle s c e rest = split_once-cons needle s c ∙ (rw (e, rest) refl)

not_opening :
    (c : ℕ) (s : Text)
    → (36 == c) ≡ false
    → split_once (codes "${{") s ≡ none
    → split_once (codes "${{") (c ∷ s) ≡ none
not_opening c s e rest = not_at (codes "${{") s c (not_here c 36 s _ e) rest

path_char : (c : ℕ) → is_path_char c ≡ true → (36 == c) ≡ false
path_char c e = ground arith

slash_char : (c : ℕ) → (c == b'/') ≡ true → (36 == c) ≡ false
slash_char c e = ground arith

safe-chars : (s : Text) → is_safe_segment s ≡ true → all is_path_char s ≡ true
safe-chars s e = ground arith

path_has_no_opening :
    (s : Text)
    → all is_path_char (split_first s).0 ≡ true
    → all is_safe_segment (split_first s).1 ≡ true
    → split_once (codes "${{") s ≡ none
unfolding split_once strip_prefix
path_has_no_opening [] h hs = refl
path_has_no_opening (c ∷ s) h hs = elim (Bool-cases (c == b'/')) [
  | inl e ↦
      let (safe, others) =
        (&&_iff (is_safe_segment (split_first s).0) (all is_safe_segment (split_first s).1)).0
          (rw e at hs) in
      not_opening c s (slash_char c e)
        (path_has_no_opening s (safe-chars (split_first s).0 safe) others)
  | inr e ↦
      let (first, others) =
        (&&_iff (is_path_char c) (all is_path_char (split_first s).0)).0 (rw e at h) in
      not_opening c s (path_char c first) (path_has_no_opening s others (rw e at hs))
]

normalized-plain :
    (raw path : Text)
    → normalize_relative_path raw ≡ some path
    → includes (codes "${{") path ≡ false
normalized-plain raw path e =
    let (_, ok) = accepted raw path e in
    let (safe, others) =
      (&&_iff (is_safe_segment (split_first path).0) (all is_safe_segment (split_first path).1)).0
        ok.safe in
    rw (includes, path_has_no_opening path (safe-chars (split_first path).0 safe) others) refl

carried-normalized :
    (raw path : Text) (o : Option Text) → carried_or_bad raw o ≡ carried path → o ≡ some path
carried-normalized raw path none e = cc e
carried-normalized raw path (some p) e = cc e

-- A directory without an expression that the planner carries is the one that the dispatch sends, unchanged.
pub resolve_step_workdir-planned :
    (lookup : Text → Text → Option Text) (raw path : Text)
    → includes (codes "${{") raw ≡ false
    → plan_working_directory raw ≡ carried path
    → resolve_step_workdir lookup (some path) ≡ at path
unfolding plan_working_directory resolve_step_workdir
resolve_step_workdir-planned lookup raw path plain e =
    let normal = carried-normalized raw path (normalize_relative_path raw) (rw plain at e) in
    rw (normalized-plain raw path normal, normalize_relative_path_idempotent raw path normal) refl
