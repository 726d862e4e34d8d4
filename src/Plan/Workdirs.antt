-- ===== src/Plan/Workdirs.antt =====
-- backend/src/services/scheduler.rs, `resolve_step_workdir`: the working directory of a planned step when its
-- job is dispatched.
use overup.Prelude.{Option, none, some, if◌then◌else◌, Text, codes}
use overup.Protocol.{normalize_relative_path}
use overup.Workflow.Words.{includes}
use overup.Workflow.Substitute.{substitute_context_refs}

-- `Result<Option<String>, ()>`; `unended` stands for a substitution that ran out of fuel.
pub data Workdir : Type 0 where
  root : Workdir
  at : Text → Workdir
  refused : Workdir
  unended : Workdir

abbrev pub at_or_refused : Option Text → Workdir
at_or_refused none = refused
at_or_refused (some path) = at path

abbrev pub check_resolved : Option Text → Workdir
check_resolved none = unended
check_resolved (some resolved) = at_or_refused (normalize_relative_path resolved)

unfoldable pub resolve_step_workdir : (Text → Text → Option Text) → Option Text → Workdir
resolve_step_workdir lookup none = root
resolve_step_workdir lookup (some raw) =
    check_resolved
      (if includes (codes "${{") raw then substitute_context_refs lookup raw else some raw)
