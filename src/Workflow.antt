-- ===== src/Workflow.antt =====
-- backend/src/services/workflow_parse.rs: what the parser of workflow files makes of a document, and
-- the diagnostics that it reports.
pub mod Yaml
pub mod Budget
pub mod Needs
pub mod Words
pub mod Fields
pub mod Documents
pub mod Plain
pub mod Triggers
pub mod Inputs
pub mod Jobs
pub mod Refs
pub mod Substitute
pub mod Scripts
pub mod Files
pub mod Parse
pub mod Errors
use overup.Workflow.Yaml.{Json}
use overup.Prelude.{
  ℕ, Bool, true, false, Option, none, some, List, [], ◌∷◌, ◌++◌, if◌then◌else◌, any, is_empty, Text,
  codes,
}

pub data Severity : Type 0 where
  error : Severity
  warning : Severity

pub record Diagnostic : Type 0 where
  pub severity : Severity
  pub message : Text
  pub path : Option Text
  pub line : Option ℕ

-- `Diagnostic::error` and `Diagnostic::warning`
abbrev pub report : Severity → Text → Option Text → Diagnostic
report severity message path = record {
  severity = severity;
  message = message;
  path = path;
  line = none;
}

abbrev pub is_error : Diagnostic → Bool
is_error d = elim d.severity [ error ↦ true | warning ↦ false ]

pub record ParsedJob : Type 0 where
  pub key : Text
  pub name : Option Text
  pub runs_on : List Text
  pub needs : List Text
  pub uses : Option Text
  pub strategy : Option Json
  pub environment : Option Text
  pub step_count : ℕ
  pub position : ℕ

pub data ValidationStatus : Type 0 where
  valid : ValidationStatus
  warnings : ValidationStatus
  errors : ValidationStatus

-- `ParsedWorkflow::status`
unfoldable pub status : List Diagnostic → ValidationStatus
status diagnostics =
    if any is_error diagnostics then errors else if is_empty diagnostics then valid else warnings

-- A function that is handed the list of diagnostics pushes to it: its result, and what it pushes.
abbrev pub Logged : Type 0 → Type 0
Logged A = A × List Diagnostic

infixl 5 ◌>>=◌ ◌>>◌
abbrev pub ◌>>=◌ : {A B : Type 0} → Logged A → (A → Logged B) → Logged B
◌>>=◌ (a, pushed) f = let (b, more) = f a in (b, pushed ++ more)

abbrev pub ◌>>◌ : {B : Type 0} → Logged (Unit {0}) → Logged B → Logged B
m >> k = m >>= λ _. k

abbrev pub pure : {A : Type 0} → A → Logged A
pure a = (a, [])

abbrev pub say : Severity → Text → Text → Logged (Unit {0})
say severity message path = (tt, report severity message (some path) ∷ [])

unfoldable pub say_if : Bool → Severity → Text → Text → Logged (Unit {0})
say_if test severity message path = if test then say severity message path else pure tt
