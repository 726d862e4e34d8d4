-- ===== src/Protocol/Tests.antt =====
-- The theorems on paths at examples of the tests of protocol/src/lib.rs.
use overup.Prelude.{◌≡◌, ◌≤◌, refl, none, some, [], codes, length, byte_len}
use overup.Protocol.{normalize_relative_path, segments_of}
use overup.Protocol.Paths.{
  walk, below, normalize_relative_path-walk, normalize_relative_path_idempotent,
}

normalizes : normalize_relative_path (codes "./a/b/") ≡ some (codes "a/b")
unfolding normalize_relative_path
normalizes = refl

rejects_parent : normalize_relative_path (codes "a/../b") ≡ none
unfolding normalize_relative_path
rejects_parent = refl

rejects_absolute : normalize_relative_path (codes "/etc") ≡ none
unfolding normalize_relative_path
rejects_absolute = refl

normalize_relative_path-walk_example :
    (byte_len (codes "a/b") ≤ 255)
    × (length (segments_of (codes "a/b")) ≤ 32)
    × (walk (segments_of (codes "a/b")) [] ≡ some (below (segments_of (codes "a/b")) []))
normalize_relative_path-walk_example =
    normalize_relative_path-walk (codes "./a/b/") (codes "a/b") [] normalizes

normalize_relative_path_idempotent_example :
    normalize_relative_path (codes "a/b") ≡ some (codes "a/b")
normalize_relative_path_idempotent_example =
    normalize_relative_path_idempotent (codes "./a/b/") (codes "a/b") normalizes
