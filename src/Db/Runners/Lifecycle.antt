-- ===== src/Db/Runners/Lifecycle.antt =====
-- What the lifecycle statements of backend/src/db/runners.rs do to a runner, and where they do less than
-- their comments say.
use overup.Prelude.{ℕ, ◌≡◌, ◌≢◌, Bool, true, false, none, List, [], ◌∷◌, Text, arith}
use overup.Db.Rows.{offline, idle, busy, disabled, Runner, is_null}
use overup.Db.Statements.{Update, apply}
use overup.Db.Runners
use overup.Db.Runners.{is_available}

-- The statements that a runner's connection and its operator cause, while it has no job.
pub data RunnerOp : Type 0 where
  revoke : (now workspace_id id : ℕ) → RunnerOp
  mark_connected : (now id : ℕ) → Text → RunnerOp
  update_labels : (id : ℕ) → List Text → RunnerOp
  touch_last_seen : (now id : ℕ) → RunnerOp
  mark_offline : (id : ℕ) → RunnerOp
  mark_all_offline : RunnerOp
  release : (id : ℕ) → RunnerOp
  drain_start : (now workspace_id id : ℕ) → RunnerOp
  disable : (workspace_id id : ℕ) → RunnerOp
  resume : (workspace_id id : ℕ) → Bool → RunnerOp

abbrev pub sql : RunnerOp → Update Runner
sql (revoke now ws id) = Runners.revoke now ws id
sql (mark_connected now id version) = Runners.mark_connected now id version
sql (update_labels id labels) = Runners.update_labels id labels
sql (touch_last_seen now id) = Runners.touch_last_seen now id
sql (mark_offline id) = Runners.mark_offline id
sql mark_all_offline = Runners.mark_all_offline
sql (release id) = Runners.release id
sql (drain_start now ws id) = Runners.drain_start now ws id
sql (disable ws id) = Runners.disable ws id
sql (resume ws id connected) = Runners.resume ws id connected

abbrev pub run : List RunnerOp → Runner → Runner
run [] r = r
run (op ∷ ops) r = run ops (apply (sql op) r)

-- A runner that was draining when it had no job: the flag is set, and no job will clear it.
abbrev IsStuck : Runner → Type 0
IsStuck r = (is_null r.draining_at ≡ false) × (r.status ≢ busy)

apply-IsStuck : (op : RunnerOp) (r : Runner) → IsStuck r → IsStuck (apply (sql op) r)
apply-IsStuck (revoke now ws id) r h = ground arith
apply-IsStuck _ r h = ground arith

run-IsStuck : (ops : List RunnerOp) (r : Runner) → IsStuck r → IsStuck (run ops r)
run-IsStuck [] r h = h
run-IsStuck (op ∷ ops) r h = run-IsStuck ops (apply (sql op) r) (apply-IsStuck op r h)

not-available : (ids : List ℕ) (r : Runner) → IsStuck r → is_available ids r ≡ false
not-available ids r h = ground arith

-- An idle runner, not revoked and not draining before, that is drained is never offered to the scheduler again: after any sequence of
-- reconnections, disconnections, label updates, releases, disabling, resuming and draining it is not
-- among the available runners.
pub drained_idle_is_lost :
    (now ws : ℕ) (r : Runner) (ops : List RunnerOp) (ids : List ℕ)
    → r.workspace_id ≡ ws
    → r.status ≡ idle
    → r.revoked_at ≡ none
    → r.draining_at ≡ none
    → is_available ids (run ops (apply (Runners.drain_start now ws r.id) r)) ≡ false
drained_idle_is_lost now ws r ops ids w i v d =
    let drained = apply (Runners.drain_start now ws r.id) r in
    not-available ids (run ops drained) (run-IsStuck ops drained (ground arith))

-- A busy runner, not revoked and not draining before, that is drained goes offline when its job ends, with the flag cleared, so that it is
-- available again once it reconnects; without draining it would become idle at once.
pub drained_busy_returns :
    (now ws later : ℕ) (version : Text) (r : Runner) (ids : List ℕ)
    → r.workspace_id ≡ ws
    → r.status ≡ busy
    → r.revoked_at ≡ none
    → r.draining_at ≡ none
    → let drained = apply (Runners.drain_start now ws r.id) r in
      let freed = apply (Runners.release r.id) drained in
      let back = apply (Runners.mark_connected later r.id version) freed in
      (drained.status ≡ busy)
      × (freed.status ≡ offline)
      × (freed.draining_at ≡ none)
      × (is_available (r.id ∷ ids) back ≡ true)
      × ((apply (Runners.release r.id) r).status ≡ idle)
drained_busy_returns now ws later version r ids w b v d =
    (ground arith, ground arith, ground arith, ground arith, ground arith)

-- A runner, not revoked and not draining, that is disabled and then reconnects becomes available although
-- nobody has resumed it.
pub reconnect_undoes_disable :
    (now ws : ℕ) (version : Text) (r : Runner) (ids : List ℕ)
    → r.workspace_id ≡ ws
    → r.revoked_at ≡ none
    → r.draining_at ≡ none
    → let off = apply (Runners.disable ws r.id) r in
      (off.status ≡ disabled)
      × (is_available (r.id ∷ ids) (apply (Runners.mark_connected now r.id version) off) ≡ true)
reconnect_undoes_disable now ws version r ids w v d = (ground arith, ground arith)

-- The claims of the scheduler as well.
pub data AnyOp : Type 0 where
  lifecycle : RunnerOp → AnyOp
  claim : (id : ℕ) → AnyOp

abbrev pub any_sql : AnyOp → Update Runner
any_sql (lifecycle op) = sql op
any_sql (claim id) = Runners.claim_runner id

abbrev pub run_any : List AnyOp → Runner → Runner
run_any [] r = r
run_any (op ∷ ops) r = run_any ops (apply (any_sql op) r)

-- Revoked, and neither working nor about to.
abbrev IsRevoked : Runner → Type 0
IsRevoked r = (is_null r.revoked_at ≡ false) × (r.status ≢ busy) × (r.status ≢ idle)

apply-IsRevoked : (op : RunnerOp) (r : Runner) → IsRevoked r → IsRevoked (apply (sql op) r)
apply-IsRevoked (revoke now ws id) r h = ground arith
apply-IsRevoked _ r h = ground arith

run_any-IsRevoked : (ops : List AnyOp) (r : Runner) → IsRevoked r → IsRevoked (run_any ops r)
run_any-IsRevoked [] r h = h
run_any-IsRevoked (lifecycle op ∷ ops) r h = run_any-IsRevoked ops _ (apply-IsRevoked op r h)
run_any-IsRevoked (claim id ∷ ops) r h = run_any-IsRevoked ops _ (ground arith)

-- A runner that its workspace revokes, whatever it was doing, is out for good: after any sequence of the
-- lifecycle statements and of claims it is not among the available runners, is neither idle nor busy, and
-- a claim does not take it.
pub revoked_is_final :
    (now ws : ℕ) (r : Runner) (ops : List AnyOp) (ids : List ℕ)
    → r.workspace_id ≡ ws
    → r.revoked_at ≡ none
    → let off = run_any ops (apply (Runners.revoke now ws r.id) r) in
      (is_available ids off ≡ false)
      × (off.status ≢ idle)
      × (off.status ≢ busy)
      × ((Runners.claim_runner r.id).guard off ≡ false)
revoked_is_final now ws r ops ids w v =
    let gone = run_any-IsRevoked ops (apply (Runners.revoke now ws r.id) r) (ground arith) in
    (ground arith, gone.2, gone.1, ground arith)
