-- ===== src/Plan/Toolchains.antt =====
-- backend/src/services/toolchain_images.rs: the catalog of toolchain images, and the short names for them.
use overup.Prelude.{
  Bool, true, false, ◌||◌, ℕ, Option, none, some, List, [], ◌∷◌, reverse, if◌then◌else◌, ◌==◌, any,
  is_empty, map, Text, codes, text_eq,
}
use overup.Workflow.Words.{strip_prefix, trim}
use overup.Workflow.Refs.{ascii_lower}

pub record Toolchain : Type 0 where
  pub key : Text
  pub label : Text
  pub language : Text
  pub description : Text
  pub tools : List Text
  pub image_latest : Text
  pub image_2204 : Text
  pub image_2404 : Text
  pub large : Bool

abbrev pub act_toolchain : Toolchain
act_toolchain = record {
  key = codes "act";
  label = codes "Base (act)";
  language = codes "General";
  description =
      codes
        "GitHub Actions-compatible base image and the default for `runs-on: ubuntu-*`. Ships Node, Python, git, and build-essential.";
  tools =
      codes "node" ∷ codes "python3" ∷ codes "git" ∷ codes "build-essential" ∷ codes "curl" ∷ [];
  image_latest = codes "catthehacker/ubuntu:act-latest";
  image_2204 = codes "catthehacker/ubuntu:act-22.04";
  image_2404 = codes "catthehacker/ubuntu:act-24.04";
  large = false;
}

abbrev pub rust_toolchain : Toolchain
rust_toolchain = record {
  key = codes "rust";
  label = codes "Rust";
  language = codes "Rust";
  description = codes "Rust toolchain with cargo, rustfmt, clippy, and cbindgen pre-installed.";
  tools = codes "rustc" ∷ codes "cargo" ∷ codes "rustfmt" ∷ codes "clippy" ∷ codes "cbindgen" ∷ [];
  image_latest = codes "catthehacker/ubuntu:rust-latest";
  image_2204 = codes "catthehacker/ubuntu:rust-22.04";
  image_2404 = codes "catthehacker/ubuntu:rust-24.04";
  large = false;
}

abbrev pub js_toolchain : Toolchain
js_toolchain = record {
  key = codes "js";
  label = codes "JavaScript / Node.js";
  language = codes "JavaScript";
  description = codes "Heavy JS tooling: Node 20/24 via nvm, plus yarn, pnpm, and grunt.";
  tools =
      codes "node" ∷ codes "npm" ∷ codes "yarn" ∷ codes "pnpm" ∷ codes "nvm" ∷ codes "grunt" ∷ [];
  image_latest = codes "catthehacker/ubuntu:js-latest";
  image_2204 = codes "catthehacker/ubuntu:js-22.04";
  image_2404 = codes "catthehacker/ubuntu:js-24.04";
  large = false;
}

abbrev pub go_toolchain : Toolchain
go_toolchain = record {
  key = codes "go";
  label = codes "Go";
  language = codes "Go";
  description = codes "Go toolchain with the standard build tools pre-installed.";
  tools = codes "go" ∷ codes "gofmt" ∷ [];
  image_latest = codes "catthehacker/ubuntu:go-latest";
  image_2204 = codes "catthehacker/ubuntu:go-22.04";
  image_2404 = codes "catthehacker/ubuntu:go-24.04";
  large = false;
}

abbrev pub dotnet_toolchain : Toolchain
dotnet_toolchain = record {
  key = codes "dotnet";
  label = codes ".NET";
  language = codes ".NET";
  description = codes ".NET SDK and runtime tooling pre-installed.";
  tools = codes "dotnet" ∷ [];
  image_latest = codes "catthehacker/ubuntu:dotnet-latest";
  image_2204 = codes "catthehacker/ubuntu:dotnet-22.04";
  image_2404 = codes "catthehacker/ubuntu:dotnet-24.04";
  large = false;
}

abbrev pub java_toolchain : Toolchain
java_toolchain = record {
  key = codes "java";
  label = codes "Java";
  language = codes "Java";
  description = codes "JDK with the common Java build tools (Maven, Gradle) pre-installed.";
  tools = codes "java" ∷ codes "maven" ∷ codes "gradle" ∷ [];
  image_latest = codes "catthehacker/ubuntu:java-tools-latest";
  image_2204 = codes "catthehacker/ubuntu:java-tools-22.04";
  image_2404 = codes "catthehacker/ubuntu:java-tools-24.04";
  large = false;
}

abbrev pub pwsh_toolchain : Toolchain
pwsh_toolchain = record {
  key = codes "pwsh";
  label = codes "PowerShell";
  language = codes "PowerShell";
  description = codes "PowerShell (pwsh) with common modules pre-installed.";
  tools = codes "pwsh" ∷ [];
  image_latest = codes "catthehacker/ubuntu:pwsh-latest";
  image_2204 = codes "catthehacker/ubuntu:pwsh-22.04";
  image_2404 = codes "catthehacker/ubuntu:pwsh-24.04";
  large = false;
}

abbrev pub gh_toolchain : Toolchain
gh_toolchain = record {
  key = codes "gh";
  label = codes "GitHub CLI";
  language = codes "GitHub CLI";
  description = codes "The GitHub CLI (`gh`) and git on top of the base image.";
  tools = codes "gh" ∷ codes "git" ∷ [];
  image_latest = codes "catthehacker/ubuntu:gh-latest";
  image_2204 = codes "catthehacker/ubuntu:gh-22.04";
  image_2404 = codes "catthehacker/ubuntu:gh-24.04";
  large = false;
}

abbrev pub full_toolchain : Toolchain
full_toolchain = record {
  key = codes "full";
  label = codes "Full runner";
  language = codes "All";
  description =
      codes
        "A complete dump of the GitHub-hosted runner filesystem — every toolchain, but very large (~60 GB extracted). Prefer a language-specific image where possible.";
  tools = codes "(full GitHub-hosted runner toolset)" ∷ [];
  image_latest = codes "catthehacker/ubuntu:full-latest";
  image_2204 = codes "catthehacker/ubuntu:full-22.04";
  image_2404 = codes "catthehacker/ubuntu:full-24.04";
  large = true;
}

abbrev pub catalog : List Toolchain
catalog =
    act_toolchain ∷ rust_toolchain ∷ js_toolchain ∷ go_toolchain ∷ dotnet_toolchain ∷ java_toolchain
    ∷ pwsh_toolchain ∷ gh_toolchain ∷ full_toolchain ∷ []

abbrev pub strip_suffix : Text → Text → Option Text
strip_suffix suffix s = elim (strip_prefix (reverse suffix) (reverse s)) [
  | none ↦ none
  | some rest ↦ some (reverse rest)
]

-- The key of an alias, and the version that it names itself.
unfoldable pub split_version : Text → Text × Option Text
split_version v = elim (strip_suffix (codes "-latest") v) [
  | some key ↦ (key, some (codes "latest"))
  | none ↦ elim (strip_suffix (codes "-24.04") v) [
    | some key ↦ (key, some (codes "24.04"))
    | none ↦ elim (strip_suffix (codes "-22.04") v) [
      | some key ↦ (key, some (codes "22.04"))
      | none ↦ (v, none)
    ]
  ]
]

-- `CATALOG.iter().find(|t| t.key == key)`
unfoldable pub find_toolchain : Text → List Toolchain → Option Toolchain
find_toolchain key [] = none
find_toolchain key (t ∷ ts) =
    let later = find_toolchain key ts in if text_eq t.key key then some t else later

unfoldable pub image_at : Text → Toolchain → Text
image_at version t =
    if text_eq version (codes "24.04")
    then t.image_2404
    else if text_eq version (codes "22.04")
    then t.image_2204
    else t.image_latest

-- The alias's own version first, then that of the job's labels.
abbrev pub version_of : Option Text → Option Text → Text
version_of (some version) os_version = version
version_of none (some version) = version
version_of none none = codes "latest"

abbrev pub is_reference_char : ℕ → Bool
is_reference_char c = c == b'/' || c == b':' || c == b'@'

unfoldable pub resolve_alias : Text → Option Text → Option Text
resolve_alias value os_version =
    let v = map ascii_lower (trim value) in
    let (key, explicit) = split_version v in
    if is_empty v || any is_reference_char v then none else elim (find_toolchain key catalog) [
      | none ↦ none
      | some t ↦ some (image_at (version_of explicit os_version) t)
    ]

abbrev pub is_image_of : Text → Toolchain → Bool
is_image_of image t =
    text_eq image t.image_latest || text_eq image t.image_2204 || text_eq image t.image_2404

unfoldable pub is_catalog_image : Text → Bool
is_catalog_image image = any (is_image_of image) catalog
