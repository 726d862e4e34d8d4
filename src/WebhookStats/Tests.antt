-- ===== src/WebhookStats/Tests.antt =====
-- The snapshot theorem at three rejections, and a bucket that the next lap of the ring uses again.
use overup.Prelude.{ℕ, ◌≡◌, ◌*◌, refl, some, List, [], ◌∷◌, arith}
use overup.WebhookStats.{
  mismatch, missing_header, hour_of, restart, record_at, sum_recent, snapshot_at,
}
use overup.WebhookStats.Window.{Rejection, after, count}
use overup.WebhookStats.Rejections.{is_recent, latest_cause, snapshot_at-count}

abbrev hour : ℕ
hour = 3600 * 1000

-- A rejection at hour 100, and two that are 24 and 25 hours later.
abbrev history : List Rejection
history = (missing_header, 125 * hour) ∷ (mismatch, 124 * hour) ∷ (mismatch, 100 * hour) ∷ []

the_old_one_is_gone : (snapshot_at (λ t. some t) (125 * hour) (after history)).rejections_24h ≡ 2
unfolding snapshot_at sum_recent record_at restart
the_old_one_is_gone = refl

snapshot_at-count_example :
    ((snapshot_at (λ t. some t) (126 * hour) (after history)).rejections_24h
      ≡ count (is_recent (hour_of (126 * hour))) history)
    × ((snapshot_at (λ t. some t) (126 * hour) (after history)).last_cause ≡ latest_cause history)
snapshot_at-count_example =
    snapshot_at-count (λ t. some t) (126 * hour) history (omega arith) (omega arith) (omega arith)
