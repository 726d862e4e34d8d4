-- ===== src/Glob/Tests.antt =====
-- The examples of the tests of trigger_eval.rs.
use overup.Prelude.{◌≡◌, refl, ◌↔◌, ◌≤◌, true, false, some, [], codes, length, byte_len}
use overup.Glob.{tokens_from, tokenize, tokens_match, glob_match, max_pattern_len, max_value_len}
use overup.Glob.Meaning.{Matches}
use overup.Glob.Matching.{glob_match_iff}
use overup.Glob.Tokens.{tokenize_total}

star_stops_at_slash : glob_match (codes "feature/*") (codes "feature/my/branch") ≡ false
unfolding glob_match tokenize tokens_match
star_stops_at_slash = refl

star_runs : glob_match (codes "feature/*") (codes "feature/my-branch") ≡ true
unfolding glob_match tokenize tokens_match
star_runs = refl

double_star_crosses : glob_match (codes "docs/**/*.md") (codes "docs/a/b/c.md") ≡ true
unfolding glob_match tokenize tokens_match
double_star_crosses = refl

class_and_plus : glob_match (codes "v[12].[0-9]+.[0-9]+") (codes "v1.10.1") ≡ true
unfolding glob_match tokenize tokens_match
class_and_plus = refl

optional_character : glob_match (codes "*.jsx?") (codes "page.js") ≡ true
unfolding glob_match tokenize tokens_match
optional_character = refl

unclosed_class_is_literal : glob_match (codes "a[b") (codes "a[b") ≡ true
unfolding glob_match tokenize tokens_match
unclosed_class_is_literal = refl

glob_match_iff_example : (glob_match (codes "feature/*") (codes "feature/my-branch") ≡ true) ↔ (
    (byte_len (codes "feature/*") ≤ max_pattern_len)
    × (byte_len (codes "feature/my-branch") ≤ max_value_len)
    × Matches (tokenize (codes "feature/*")) (codes "feature/my-branch"))
glob_match_iff_example = glob_match_iff (codes "feature/*") (codes "feature/my-branch")

tokenize_total_example :
    tokens_from (length (codes "v[12]+\\*")) [] (codes "v[12]+\\*")
    ≡ some (tokenize (codes "v[12]+\\*"))
tokenize_total_example = tokenize_total (codes "v[12]+\\*")
