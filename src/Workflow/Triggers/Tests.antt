-- ===== src/Workflow/Triggers/Tests.antt =====
-- The theorem on stored filters at a workflow that filters its pushes by branch.
use overup.Prelude.{◌≡◌, refl, true, [], ◌∷◌, codes}
use overup.Workflow.Yaml.{Entries, end, entry, string, bool, sequence, mapping, cons, nil}
use overup.Workflow.Plain.{plain}
use overup.Workflow.Documents.{index}
use overup.Workflow.Yaml.{key_name}
use overup.Workflow.Fields.{key_names, strs, keep_patterns, capped_patterns, filter_patterns}
use overup.Workflow.Triggers.{
  on_value, push_filters, extract_trigger_filters, event_names, extract_triggers, triggers_of,
}
use overup.Workflow.Triggers.Stored.{
  ReadsPush, ReadsPullRequest, push_of, pull_request_of, types_of, events_of,
  extract_trigger_filters-read,
}

-- on: { push: { branches: [main, "!wip"] } }, the key read as a bool
abbrev root : Entries
root =
    entry (bool true)
      (mapping (
        entry (string (codes "push"))
          (mapping (
            entry (string (codes "branches"))
              (sequence (cons (string (codes "main")) (cons (string (codes "!wip")) nil))) end))
          end))
      end

the_event_is_listed : (extract_triggers plain root).0 ≡ codes "push" ∷ []
unfolding extract_triggers triggers_of on_value event_names key_names key_name
the_event_is_listed = refl

branches_are_kept :
    (push_of plain (events_of plain root)).branches ≡ codes "main" ∷ codes "!wip" ∷ []
unfolding on_value push_filters filter_patterns capped_patterns keep_patterns strs
branches_are_kept = refl

extract_trigger_filters-read_example :
    ReadsPush
      (index (extract_trigger_filters plain root).0 (codes "push"))
      (push_of plain (events_of plain root))
    × ReadsPullRequest
        (index (extract_trigger_filters plain root).0 (codes "pullRequest"))
        (types_of plain (events_of plain root))
        (pull_request_of plain (events_of plain root))
extract_trigger_filters-read_example = extract_trigger_filters-read plain root
