-- ===== src/WebhookStats.antt =====
-- backend/src/services/webhook_stats.rs: the counters of rejected webhook deliveries. The two rings of hours
-- are functions of the slot, which is below 24 wherever the code reads or writes one. A call runs without
-- another in between; times are in milliseconds since 1970.
pub mod Window
pub mod Rejections
mod Tests
use overup.Prelude.{
  ℕ, zero, suc, ◌+◌, ◌/◌, ◌%◌, ◌^◌, Bool, ◌&&◌, Option, none, some, if◌then◌else◌, ltb, leb, ◌==◌,
  Text, codes,
}

pub data SignatureError : Type 0 where
  missing_header malformed_header bad_prefix invalid_hex mismatch : SignatureError

unfoldable pub as_str : SignatureError → Text
as_str missing_header = codes "missing_header"
as_str malformed_header = codes "malformed_header"
as_str bad_prefix = codes "bad_prefix"
as_str invalid_hex = codes "invalid_hex"
as_str mismatch = codes "mismatch"

unfoldable pub code : SignatureError → ℕ
code missing_header = 1
code malformed_header = 2
code bad_prefix = 3
code invalid_hex = 4
code mismatch = 5

unfoldable pub from_code : ℕ → Option SignatureError
from_code c =
    if c == 1
    then some missing_header
    else if c == 2
    then some malformed_header
    else if c == 3
    then some bad_prefix
    else if c == 4
    then some invalid_hex
    else if c == 5
    then some mismatch
    else none

abbrev pub buckets : ℕ
buckets = 24

pub record WebhookAuthStats : Type 0 where
  pub total : ℕ
  pub last_at_ms : ℕ
  pub last_cause : ℕ
  pub bucket_counts : ℕ → ℕ
  pub bucket_hours : ℕ → ℕ

pub record WebhookAuthSnapshot : Type 0 where
  pub rejections_24h : ℕ
  pub last_rejected_at : Option ℕ
  pub last_cause : Option Text

-- `WebhookAuthStats::default()`
abbrev pub default : WebhookAuthStats
default = record {
  total = 0;
  last_at_ms = 0;
  last_cause = 0;
  bucket_counts = λ _. 0;
  bucket_hours = λ _. 0;
}

abbrev pub hour_of : ℕ → ℕ
hour_of now = now / 1000 / 3600

-- `cell.store(v)` in a ring.
abbrev pub store : ℕ → ℕ → (ℕ → ℕ) → ℕ → ℕ
store slot v ring i = if i == slot then v else ring i

-- `fetch_add(1)` on a `u64`
abbrev pub increment : ℕ → ℕ
increment n = (n + 1) % 2 ^ 64

-- A bucket of an earlier lap starts again from zero.
unfoldable pub restart : ℕ → ℕ → WebhookAuthStats → WebhookAuthStats
restart slot hour stats = if stats.bucket_hours slot == hour then stats else record stats {
  bucket_hours = store slot hour stats.bucket_hours;
  bucket_counts = store slot 0 stats.bucket_counts;
}

unfoldable pub record_at : SignatureError → ℕ → WebhookAuthStats → WebhookAuthStats
record_at cause now stats =
    let slot = hour_of now % buckets in
    let seen = record stats {
      total = increment stats.total;
      last_at_ms = now;
      last_cause = code cause;
    } in
    let started = restart slot (hour_of now) seen in
    record started {
      bucket_counts = store slot (increment (started.bucket_counts slot)) started.bucket_counts;
    }

-- What one bucket adds: only those of the last 24 absolute hours count.
abbrev pub recent : ℕ → WebhookAuthStats → ℕ → ℕ
recent hour stats slot =
    if ltb hour (stats.bucket_hours slot + buckets) && leb (stats.bucket_hours slot) hour
    then stats.bucket_counts slot
    else 0

-- `for slot in 0..BUCKETS`, the slots below the first argument.
unfoldable pub sum_recent : ℕ → ℕ → WebhookAuthStats → ℕ
sum_recent zero hour stats = 0
sum_recent (suc slot) hour stats = (sum_recent slot hour stats + recent hour stats slot) % 2 ^ 64

abbrev pub cause_name : Option SignatureError → Option Text
cause_name none = none
cause_name (some cause) = some (as_str cause)

-- `Utc.timestamp_millis_opt(ms).single()` is a parameter.
unfoldable pub snapshot_at : (ℕ → Option ℕ) → ℕ → WebhookAuthStats → WebhookAuthSnapshot
snapshot_at timestamp_millis_opt now stats = record {
  rejections_24h = sum_recent buckets (hour_of now) stats;
  last_rejected_at = if ltb 0 stats.last_at_ms then timestamp_millis_opt stats.last_at_ms else none;
  last_cause = cause_name (from_code stats.last_cause);
}
