-- ===== src/Plan/Limits.antt =====
-- The sizes of what backend/src/services/pipeline_plan.rs stores, and the paths that it carries.
use overup.Prelude.{
  ℕ, ◌≤◌, ◌≡◌, true, false, not, ◌&&◌, ◌⊎◌, inl, inr, Option, none, some, List, [], ◌∷◌, All, any,
  leb, leb→le, arith, Bool-cases, Option-cases, &&_iff, Text, codes, text_eq, byte_len,
}
use overup.LogHub.Held.{split_floor_lem}
use overup.Protocol.{segments_of, normalize_relative_path, max_relative_path_bytes}
use overup.Protocol.Paths.{accepted, walk-safe, ltb-le}
use overup.Workflow.Yaml.{Value, entries, Yaml}
use overup.Workflow.Words.{is_control, includes}
use overup.Workflow.Refs.{text_leb}
use overup.Workflow.Files.Detected.{IsReached}
use overup.Plan.{
  Env, PlannedPath, carried, bad, max_env_value_bytes, truncate_utf8, insert_env, extend_env,
  env_value, insert_entry, env_entries, env_map, plan_working_directory, settle,
}

pub truncate_utf8-short : (max : ℕ) (value : Text) → byte_len (truncate_utf8 max value) ≤ max
unfolding truncate_utf8
truncate_utf8-short max value = elim (Bool-cases (leb (byte_len value) max)) [
  | inl fits ↦ rw fits (leb→le (byte_len value) max fits)
  | inr long ↦ rw long (split_floor_lem max value).1
]

abbrev pub IsShort : Env → Type 0
IsShort env = All (λ (entry : Text × Text). byte_len entry.1 ≤ max_env_value_bytes) env

insert_env-IsShort :
    (key value : Text) (env : Env)
    → byte_len value ≤ max_env_value_bytes
    → IsShort env
    → IsShort (insert_env key value env)
unfolding insert_env
insert_env-IsShort key value [] h hs = (h, tt)
insert_env-IsShort key value ((k, v) ∷ env) h (g, gs) = elim (Bool-cases (text_eq key k)) [
  | inl same ↦ rw same (h, gs)
  | inr other ↦ rw other (elim (Bool-cases (text_leb key k)) [
    | inl before ↦ rw before (h, (g, gs))
    | inr after ↦ rw after (g, insert_env-IsShort key value env h gs)
  ])
]

pub extend_env-IsShort :
    (env more : Env) → IsShort env → IsShort more → IsShort (extend_env env more)
unfolding extend_env
extend_env-IsShort env [] h hs = h
extend_env-IsShort env ((key, value) ∷ more) h (g, gs) =
    extend_env-IsShort (insert_env key value env) more (insert_env-IsShort key value env g h) gs

insert_entry-IsShort :
    (yaml : Yaml) (key value : Option Text) (env : Env)
    → IsShort env
    → IsShort (insert_entry yaml key value env)
unfolding insert_entry
insert_entry-IsShort yaml none value env h = h
insert_entry-IsShort yaml (some key) none env h = h
insert_entry-IsShort yaml (some key) (some value) env h =
    insert_env-IsShort key _ env (truncate_utf8-short max_env_value_bytes value) h

env_entries-IsShort :
    (yaml : Yaml) (es : List (Value × Value)) (env : Env)
    → IsShort env
    → IsShort (env_entries yaml es env)
unfolding env_entries
env_entries-IsShort yaml [] env h = h
env_entries-IsShort yaml ((key, value) ∷ rest) env h =
    env_entries-IsShort yaml rest _
      (insert_entry-IsShort yaml (yaml.as_str key) (env_value value) env h)

pub env_map-IsShort : (yaml : Yaml) (node : Option Value) → IsShort (env_map yaml node)
unfolding env_map
env_map-IsShort yaml none = tt
env_map-IsShort yaml (some node) = elim (Option-cases (yaml.as_mapping node)) [
  | inl e ↦ rw (env_map, e) tt
  | inr (map, e) ↦ rw (env_map, e) (env_entries-IsShort yaml (entries map) [] tt)
]

-- An expression that is resolved when the job is dispatched: not longer than a path, without controls.
abbrev pub IsExpression : Text → Type 0
IsExpression path =
    (includes (codes "${{") path ≡ true)
    × (byte_len path ≤ max_relative_path_bytes)
    × (any is_control path ≡ false)

abbrev pub IsPlanned : Option Text → Type 0
IsPlanned none = Unit
IsPlanned (some path) = IsReached path ⊎ IsExpression path

abbrev pub IsCarried : PlannedPath → Type 0
IsCarried (carried path) = IsPlanned (some path)
IsCarried (bad fragment) = Unit

pub normalized-IsReached :
    (raw path : Text) → normalize_relative_path raw ≡ some path → IsReached path
normalized-IsReached raw path e =
    let (_, ok) = accepted raw path e in
    (
      ltb-le max_relative_path_bytes (byte_len path) ok.short,
      λ dir. walk-safe (segments_of path) dir ok.safe,
    )

plan_working_directory-IsCarried : (raw : Text) → IsCarried (plan_working_directory raw)
unfolding plan_working_directory
plan_working_directory-IsCarried raw = elim (Bool-cases (includes (codes "${{") raw)) [
  | inl expr ↦
      rw expr
        (elim (Bool-cases
          (leb (byte_len raw) max_relative_path_bytes && not (any is_control raw))) [
            | inr e ↦ rw e tt
            | inl e ↦
                let (fits, clean) = (&&_iff _ _).0 e in
                rw e (inr (expr, leb→le (byte_len raw) max_relative_path_bytes fits, ground arith))
          ])
  | inr plain ↦ rw plain (elim (Option-cases (normalize_relative_path raw)) [
    | inl e ↦ rw e tt
    | inr (path, e) ↦ rw e (inl (normalized-IsReached raw path e))
  ])
]

settled-IsPlanned :
    (path : PlannedPath) (notices : List Text) → IsCarried path → IsPlanned (settle path notices).0
unfolding settle
settled-IsPlanned (carried path) notices h = h
settled-IsPlanned (bad fragment) notices h = tt

pub settle-IsPlanned :
    (raw : Text) (notices : List Text) → IsPlanned (settle (plan_working_directory raw) notices).0
settle-IsPlanned raw notices = settled-IsPlanned _ notices (plan_working_directory-IsCarried raw)
