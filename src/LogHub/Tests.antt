-- ===== src/LogHub/Tests.antt =====
-- The theorems on masking at a token that two chunks share, and what happens to a value of two lines.
use overup.Prelude.{◌≡◌, refl, true, false, none, List, [], ◌∷◌, ◌++◌, Text, codes, arith, All, inl}
use overup.LogHub.{
  stdout, MaskState, fresh, occurs, apply_masks, entry, register_masks, mask_chunk, finish_job,
}
use overup.LogHub.Replace.{apply_masks-hides}
use overup.LogHub.Masked.{Input, mask_all, text_of}
use overup.LogHub.Log.{LogEvent, register, chunk, follow, log-hides}
use overup.LogHub.Attempts.{again, second_attempt_dropped}

abbrev token : Text
token = codes "ghs_token"

abbrev halves : List Input
halves =
    (1, stdout, codes "auth ghs_", (none, none))
    ∷ (2, stdout, codes "token done", (none, none))
    ∷ []

apply_masks-hides_example :
    All (λ v. occurs v (apply_masks (token ∷ []) (codes "auth ghs_token")) ≡ false) (token ∷ [])
apply_masks-hides_example = apply_masks-hides (token ∷ []) (codes "auth ghs_token") (ground arith)

abbrev note : LogEvent
note = register (codes "first line\nsecond line" ∷ [])

-- A second value, of two lines, is registered between the halves.
abbrev events : List LogEvent
events =
    chunk (1, stdout, codes "auth ghs_", (none, none))
    ∷ note
    ∷ chunk (2, stdout, codes "token done", (none, none))
    ∷ []

log-hides_example :
    occurs token (
      (follow events (register_masks (token ∷ []) none)).0
      ++ text_of (finish_job (follow events (register_masks (token ∷ []) none)).1).1)
    ≡ false
log-hides_example =
    log-hides none (token ∷ []) events token (refl, tt) (ground arith) (ground arith) (inl refl)
      refl (omega arith)

halves_are_masked :
    (mask_all halves (entry (register_masks (token ∷ []) none))).0
      ++ (mask_all halves (entry (register_masks (token ∷ []) none))).1.carry
    ≡ codes "auth *** done"
unfolding mask_all register_masks
halves_are_masked = refl

abbrev key : Text
key = codes "first line\nsecond line"

abbrev lines : List Input
lines =
    (1, stdout, codes "first line\n", (none, none))
    ∷ (2, stdout, codes "second line", (none, none))
    ∷ []

-- A value with a line feed in it is not masked where chunks end at its lines.
two_lines_leak :
    occurs key (
      (mask_all lines (entry (register_masks (key ∷ []) none))).0
      ++ (mask_all lines (entry (register_masks (key ∷ []) none))).1.carry)
    ≡ true
unfolding mask_all register_masks
two_lines_leak = refl

abbrev used : MaskState
used = record fresh { values = token ∷ []; max_len = 9; next_seq = 5; generation = 1 }

second_attempt_dropped_example :
    mask_chunk 1 stdout (codes "hello") (none, none) (again (token ∷ []) used)
    ≡ (again (token ∷ []) used, none)
second_attempt_dropped_example =
    second_attempt_dropped (token ∷ []) used 1 stdout (codes "hello") (none, none) (omega arith)
