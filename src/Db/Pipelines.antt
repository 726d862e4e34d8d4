-- ===== src/Db/Pipelines.antt =====
-- backend/src/db/pipelines.rs: the statements on the `pipelines` table that the state machine runs.
use overup.Prelude.{ℕ, ◌+◌, not, ◌&&◌, some, List, ltb, ◌==◌, filter}
use overup.Db.Rows.{in_progress, completed, Verdict, Pipeline, is_queued, is_completed, coalesce}
use overup.Db.Statements.{Update}

abbrev pub mark_in_progress : ℕ → ℕ → Update Pipeline
mark_in_progress now id = record {
  guard = λ p. p.id == id && is_queued p.status;
  change = λ p. record p { status = in_progress; started_at = coalesce p.started_at now };
}

abbrev pub finalize : ℕ → ℕ → Verdict → Update Pipeline
finalize now id conclusion = record {
  guard = λ p. p.id == id && not (is_completed p.status);
  change = λ p. record p {
    status = completed;
    conclusion = some conclusion;
    started_at = coalesce p.started_at now;
    finished_at = some now;
  };
}

-- `created_at + timeout < now()`
abbrev pub find_timed_out : ℕ → List Pipeline → List Pipeline
find_timed_out now pipelines =
    filter (λ p. not (is_completed p.status) && ltb (p.created_at + p.timeout_seconds) now)
      pipelines
