-- ===== src/Workflow/Documents.antt =====
-- The JSON documents that backend/src/services/workflow_parse.rs stores and backend/src/services/trigger_eval.rs
-- reads again: lists of texts, objects, and how a document is indexed.
use overup.Prelude.{◌≡◌, refl, ap, Option, none, some, List, [], ◌∷◌, if◌then◌else◌, Text, text_eq}
use overup.Workflow.Yaml.{
  Json, Array, Object, null, string, array, object, Value, Items, Entries, Yaml, key_name,
}
use overup.Trigger
use overup.Trigger.{strings}

unfoldable pub strings_json : List Text → Array
strings_json [] = Array.nil
strings_json (s ∷ rest) = Array.cons (string s) (strings_json rest)

abbrev pub array_items : Array → List Json
array_items Array.nil = []
array_items (Array.cons v rest) = v ∷ array_items rest

-- `object[key] = value`
unfoldable pub put_field : Text → Json → Object → Object
put_field key v Object.end = Object.field key v Object.end
put_field key v (Object.field k w rest) =
    let later = put_field key v rest in
    if text_eq k key then Object.field k v rest else Object.field k w later

unfoldable pub field_of : Object → Text → Json
field_of Object.end key = null
field_of (Object.field k v rest) key =
    let later = field_of rest key in if text_eq k key then v else later

unfoldable pub index : Json → Text → Json
index (object fields) key = field_of fields key
index _ key = null

unfoldable pub as_array : Json → Option (List Json)
as_array (array xs) = some (array_items xs)
as_array _ = none

unfoldable pub as_str : Json → Option Text
as_str (string s) = some s
as_str _ = none

-- Documents as the evaluation of triggers takes them.
abbrev pub documents : Trigger.Json
documents = record { Value = Json; index = index; as_array = as_array; as_str = as_str }

pub strings-strings_json : (ps : List Text) → strings documents (array_items (strings_json ps)) ≡ ps
unfolding strings strings_json as_str
strings-strings_json [] = refl
strings-strings_json (p ∷ ps) = ap (λ t. p ∷ t) (strings-strings_json ps)

-- `value_to_json`, lossy: keys that are no names are left out, and tags are dropped.
module _ (yaml : Yaml) where
  unfoldable mutual
    unfolding key_name

    pub value_to_json : Value → Json
    value_to_json Value.null = null
    value_to_json (Value.bool b) = Json.bool b
    value_to_json (Value.number n) = yaml.number_json n
    value_to_json (Value.string s) = string s
    value_to_json (Value.sequence xs) = array (items_json xs)
    value_to_json (Value.mapping es) = object (entries_json es Object.end)
    value_to_json (Value.tagged t v) = value_to_json v

    pub items_json : Items → Array
    items_json Items.nil = Array.nil
    items_json (Items.cons v rest) = Array.cons (value_to_json v) (items_json rest)

    pub entries_json : Entries → Object → Object
    entries_json Entries.end fields = fields
    entries_json (Entries.entry key v rest) fields = entries_json rest (elim (key_name key) [
      | none ↦ fields
      | some name ↦ put_field name (value_to_json v) fields
    ])
