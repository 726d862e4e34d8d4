-- ===== src/Workflow/Plain.antt =====
-- An instance of the YAML library's accessors, for runs of the parser of
-- backend/src/services/workflow_parse.rs on documents without tags.
use overup.Prelude.{Bool, true, false, Option, none, some, List, if◌then◌else◌, Text, text_eq}
use overup.Workflow.Yaml.{
  Value, Entries, items, end, entry, bool, string, sequence, mapping, Yaml, Json,
}

abbrev same_key : Value → Value → Bool
same_key (string s) (string t) = text_eq s t
same_key (bool true) (bool true) = true
same_key (bool false) (bool false) = true
same_key _ _ = false

abbrev pub find_entry : Entries → Value → Option Value
find_entry end key = none
find_entry (entry k v rest) key =
    let later = find_entry rest key in if same_key k key then some v else later

abbrev as_str : Value → Option Text
as_str (string s) = some s
as_str _ = none

abbrev as_bool : Value → Option Bool
as_bool (bool b) = some b
as_bool _ = none

abbrev as_sequence : Value → Option (List Value)
as_sequence (sequence xs) = some (items xs)
as_sequence _ = none

abbrev as_mapping : Value → Option Entries
as_mapping (mapping es) = some es
as_mapping _ = none

abbrev value_get : Value → Text → Option Value
value_get (mapping es) name = find_entry es (string name)
value_get _ name = none

abbrev pub plain : Yaml
plain = record {
  as_str = as_str;
  as_bool = as_bool;
  as_sequence = as_sequence;
  as_mapping = as_mapping;
  lookup = find_entry;
  value_get = value_get;
  number_json = λ n. Json.number n;
}
