-- ===== src/Scheduler/Labels.antt =====
-- `labels_satisfy` (backend/src/services/scheduler.rs): every requested label is offered, up to white space
-- around it and the case of ASCII letters.
use overup.Prelude.{
  true, ◌≡◌, ◌↔◌, List, map, any, All, Exists, any_iff, all_iff, Text, text_eq_iff,
}
use overup.Scheduler.{trim, ascii_lower, eq_ignore_ascii_case, labels_satisfy}

-- What is compared of a label.
abbrev pub folded : Text → Text
folded label = map ascii_lower (trim label)

-- A runner takes a job exactly when each label that the job wants is one that the runner has, where
-- labels are the same if they agree without the white space around them and in lower case.
pub labels_satisfy_iff :
    (runs_on runner_labels : List Text)
    → (labels_satisfy runs_on runner_labels ≡ true)
      ↔ All (λ wanted. Exists (λ have. folded have ≡ folded wanted) runner_labels) runs_on
labels_satisfy_iff runs_on runner_labels =
    all_iff (λ wanted. any (λ have. eq_ignore_ascii_case (trim have) (trim wanted)) runner_labels)
      (λ wanted. Exists (λ have. folded have ≡ folded wanted) runner_labels)
      (λ wanted.
        any_iff (λ have. eq_ignore_ascii_case (trim have) (trim wanted))
          (λ have. folded have ≡ folded wanted) (λ have. text_eq_iff (folded have) (folded wanted))
          runner_labels)
      runs_on
