-- ===== src/Plan/Images.antt =====
-- backend/src/services/pipeline_plan.rs: which image a job runs in.
use overup.Prelude.{
  Bool, false, not, ◌&&◌, ◌||◌, ℕ, Option, none, some, List, [], ◌∷◌, ◌++◌, if◌then◌else◌, leb,
  ◌==◌, all, any, is_empty, map, Text, codes, text_eq, byte_len,
}
use overup.Workflow.Yaml.{Value, Yaml}
use overup.Workflow.Words.{is_ascii_alphanumeric, starts_with, trim}
use overup.Workflow.Refs.{ascii_lower}
use overup.Plan.{sanitize_for_notice, get_text}
use overup.Plan.Toolchains.{strip_suffix, resolve_alias, is_catalog_image}

-- The image of one label.
unfoldable pub label_image : Text → Option Text
label_image label =
    if text_eq label (codes "ubuntu-latest")
    then some (codes "catthehacker/ubuntu:act-latest")
    else if text_eq label (codes "ubuntu-24.04")
    then some (codes "catthehacker/ubuntu:act-24.04")
    else if text_eq label (codes "ubuntu-22.04")
    then some (codes "catthehacker/ubuntu:act-22.04")
    else if text_eq label (codes "ubuntu-20.04")
    then some (codes "catthehacker/ubuntu:act-20.04")
    else none

unfoldable pub image_for_runs_on : List Text → Option Text
image_for_runs_on [] = none
image_for_runs_on (label ∷ labels) =
    let later = image_for_runs_on labels in
    elim (label_image (map ascii_lower (trim label))) [ some image ↦ some image | none ↦ later ]

unfoldable pub label_os : Text → Option Text
label_os label =
    if text_eq label (codes "ubuntu-24.04")
    then some (codes "24.04")
    else if text_eq label (codes "ubuntu-22.04")
    then some (codes "22.04")
    else none

unfoldable pub runs_on_os : List Text → Option Text
runs_on_os [] = none
runs_on_os (label ∷ labels) =
    let later = runs_on_os labels in
    elim (label_os (map ascii_lower (trim label))) [ some os ↦ some os | none ↦ later ]

unfoldable pub image_glob_match : Text → Text → Bool
image_glob_match pattern image = elim (strip_suffix (codes "*") pattern) [
  | some prefix ↦ starts_with prefix image
  | none ↦ text_eq pattern image
]

unfoldable pub image_allowed : Text → List Text → Bool
image_allowed image allowlist =
    is_empty allowlist
    || is_catalog_image image
    || any (λ entry. image_glob_match entry image) allowlist

abbrev pub starts_alphanumeric : Text → Bool
starts_alphanumeric [] = false
starts_alphanumeric (c ∷ s) = is_ascii_alphanumeric c

abbrev pub is_image_char : ℕ → Bool
is_image_char c =
    is_ascii_alphanumeric c
    || c == b'.'
    || c == b'_'
    || c == b'-'
    || c == b'/'
    || c == b':'
    || c == b'@'

unfoldable pub is_valid_image_reference : Text → Bool
is_valid_image_reference value =
    not (is_empty value)
    && leb (byte_len value) 256
    && starts_alphanumeric value
    && all is_image_char value

-- The image for the labels of the job, or the configured one.
abbrev pub image_or_default : Text → List Text → Text
image_or_default default_image runs_on = elim (image_for_runs_on runs_on) [
  | none ↦ default_image
  | some image ↦ image
]

abbrev pub alias_notice : Text → Text → Text
alias_notice reference resolved =
    codes "toolchain `"
    ++ sanitize_for_notice reference
    ++ codes "` resolved to image `"
    ++ resolved
    ++ codes "`"

abbrev pub not_allowed_notice : Text → Text
not_allowed_notice reference =
    codes "container image `"
    ++ sanitize_for_notice reference
    ++ codes "` is not in the allowed image list; using the image for `runs-on` instead"

abbrev pub not_valid_notice : Text → Text
not_valid_notice reference =
    codes "container image `"
    ++ sanitize_for_notice reference
    ++ codes "` is not a valid image reference; using the image for `runs-on` instead"

module _ (default_image : Text) (allowlist : List Text) (runs_on : List Text) where
  -- A reference that is no alias.
  unfoldable pub explicit_image : Text → List Text → Text × List Text
  explicit_image reference notices =
      if is_valid_image_reference reference
      then (if image_allowed reference allowlist then (reference, notices) else (
        image_or_default default_image runs_on,
        notices ++ not_allowed_notice reference ∷ [],
      ))
      else (image_or_default default_image runs_on, notices ++ not_valid_notice reference ∷ [])

  -- The image, and the notices with what is said of it.
  unfoldable pub choose_image : Option Text → List Text → Text × List Text
  choose_image none notices = (image_or_default default_image runs_on, notices)
  choose_image (some reference) notices = elim (resolve_alias reference (runs_on_os runs_on)) [
    | some resolved ↦ (resolved, notices ++ alias_notice reference resolved ∷ [])
    | none ↦ explicit_image reference notices
  ]

module _ (yaml : Yaml) where
  open yaml use {value_get}

  unfoldable pub image_of_container : Value → Option Text
  image_of_container (Value.string image) = some image
  image_of_container (Value.mapping es) = get_text yaml (Value.mapping es) (codes "image")
  image_of_container _ = none

  unfoldable pub container_image : Value → Option Text
  container_image job_node = elim (value_get job_node (codes "container")) [
    | none ↦ none
    | some container ↦ image_of_container container
  ]
