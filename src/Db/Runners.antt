-- ===== src/Db/Runners.antt =====
-- backend/src/db/runners.rs: the statements on the `runners` table that scheduling and the lifecycle
-- controls run. The audit entries that some of them append are in no later condition and are left out.
pub mod Lifecycle
use overup.Prelude.{
  ℕ, ◌+◌, Bool, true, false, not, ◌&&◌, ◌||◌, Option, none, some, List, [], ◌∷◌, ltb, ◌==◌,
  if◌then◌else◌, filter, Text,
}
use overup.Db.Rows.{
  RunnerStatus, offline, idle, busy, disabled, Runner, is_idle, is_busy, is_disabled, is_offline,
  is_null,
}
use overup.Db.Statements.{Update}
use overup.Db.Jobs.{member, older_than}

-- The runner half of `claim_for_runner` in pipeline_jobs.rs.
abbrev pub claim_runner : ℕ → Update Runner
claim_runner runner_id = record {
  guard = λ r. r.id == runner_id && is_idle r.status && is_null r.revoked_at;
  change = λ r. record r { status = busy };
}

abbrev pub revoke : ℕ → ℕ → ℕ → Update Runner
revoke now workspace_id id = record {
  guard = λ r. r.workspace_id == workspace_id && r.id == id && is_null r.revoked_at;
  change = λ r. record r { revoked_at = some now; status = offline };
}

abbrev pub mark_connected : ℕ → ℕ → Text → Update Runner
mark_connected now id version = record {
  guard = λ r. r.id == id && is_null r.revoked_at;
  change = λ r. record r { status = idle; version = some version; last_seen_at = some now };
}

abbrev pub update_labels : ℕ → List Text → Update Runner
update_labels id labels = record {
  guard = λ r. r.id == id && is_null r.revoked_at;
  change = λ r. record r { labels = labels };
}

abbrev pub touch_last_seen : ℕ → ℕ → Update Runner
touch_last_seen now id = record {
  guard = λ r. r.id == id;
  change = λ r. record r { last_seen_at = some now };
}

abbrev pub mark_offline : ℕ → Update Runner
mark_offline id = record { guard = λ r. r.id == id; change = λ r. record r { status = offline } }

abbrev pub mark_all_offline : Update Runner
mark_all_offline = record {
  guard = λ r. not (is_offline r.status);
  change = λ r. record r { status = offline };
}

abbrev pub release : ℕ → Update Runner
release id = record {
  guard = λ r. r.id == id && is_busy r.status;
  change = λ r. record r {
    status = if not (is_null r.draining_at) then offline else idle;
    draining_at = none;
  };
}

abbrev pub drain_start : ℕ → ℕ → ℕ → Update Runner
drain_start now workspace_id id = record {
  guard = λ r.
      r.workspace_id == workspace_id
      && r.id == id
      && is_null r.revoked_at
      && is_null r.draining_at
      && (is_idle r.status || is_busy r.status);
  change = λ r. record r {
    draining_at = some now;
    status = if is_idle r.status then offline else r.status;
  };
}

abbrev pub disable : ℕ → ℕ → Update Runner
disable workspace_id id = record {
  guard = λ r.
      r.workspace_id == workspace_id
      && r.id == id
      && is_null r.revoked_at
      && not (is_disabled r.status);
  change = λ r. record r { status = disabled };
}

abbrev pub resume : ℕ → ℕ → Bool → Update Runner
resume workspace_id id connected = record {
  guard = λ r.
      r.workspace_id == workspace_id && r.id == id && is_null r.revoked_at && is_disabled r.status;
  change = λ r. record r { status = if connected then idle else offline };
}

-- `find_idle_by_ids`, and its `WHERE`.
abbrev pub is_available : List ℕ → Runner → Bool
is_available ids r =
    member r.id ids && is_idle r.status && is_null r.draining_at && is_null r.revoked_at

abbrev pub find_idle_by_ids : List ℕ → List Runner → List Runner
find_idle_by_ids ids runners = filter (is_available ids) runners

abbrev pub find_stale : ℕ → ℕ → List Runner → List Runner
find_stale now cutoff_secs runners =
    filter
      (λ r.
        not (is_offline r.status)
        && (is_null r.last_seen_at || older_than r.last_seen_at now cutoff_secs))
      runners
