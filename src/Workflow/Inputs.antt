-- ===== src/Workflow/Inputs.antt =====
-- backend/src/services/workflow_parse.rs, `extract_dispatch_inputs`: the inputs of manually dispatched
-- workflows.
use overup.Prelude.{
  Bool, true, false, not, ◌&&◌, ℕ, Option, none, some, List, [], ◌∷◌, ◌++◌, if◌then◌else◌, filter,
  take, leb, ltb, is_empty, length, Text, codes, contains, text_eq, byte_len,
}
use overup.Workflow.{warning, Logged, ◌>>=◌, ◌>>◌, pure, say, say_if}
use overup.Workflow.Yaml.{
  Value, Entries, entries, string, bool, number, null, key_name, Yaml, Json, Object, object,
}
use overup.Workflow.Fields.{is_valid_input_name, get}
use overup.Workflow.Documents.{put_field}
use overup.Workflow.Triggers.{on_value, get_mapping, list_json}

abbrev pub max_dispatch_inputs : ℕ
max_dispatch_inputs = 25

abbrev pub max_input_options : ℕ
max_input_options = 50

abbrev pub dispatch_input_types : List Text
dispatch_input_types =
    codes "string" ∷ codes "number" ∷ codes "boolean" ∷ codes "choice" ∷ codes "environment" ∷ []

abbrev pub inputs_path : Text
inputs_path = codes "on.workflow_dispatch.inputs"

abbrev pub input_path : Text → Text → Text
input_path name field = inputs_path ++ codes "." ++ name ++ field

-- The definition of one input.
pub record DispatchInput : Type 0 where
  pub name : Text
  pub input_type : Text
  pub required : Bool
  pub description : Option Text
  pub default : Option Text
  pub options : List Text

-- `key_name(key).filter(|n| is_valid_input_name(n))`
unfoldable pub input_name : Value → Option Text
input_name key = elim (key_name key) [
  | none ↦ none
  | some name ↦ if is_valid_input_name name then some name else none
]

-- Defaults are stringified.
unfoldable pub default_text : Option Value → Option Text
default_text (some (string s)) = some (take 1024 s)
default_text (some (bool true)) = some (codes "true")
default_text (some (bool false)) = some (codes "false")
default_text (some (number n)) = some n
default_text _ = none

abbrev pub is_option : Text → Bool
is_option s = not (is_empty s) && leb (byte_len s) 200

abbrev pub put_some : Text → Option Text → Object → Object
put_some key none fields = fields
put_some key (some s) fields = put_field key (Json.string s) fields

-- `json!({ … })`, and the fields that are added to it.
unfoldable pub input_json : DispatchInput → Json
input_json d =
    let base = Object.field (codes "name") (Json.string d.name) (
      Object.field (codes "type") (Json.string d.input_type)
        (Object.field (codes "required") (Json.bool d.required) Object.end)) in
    let described =
      put_some (codes "default") d.default (put_some (codes "description") d.description base) in
    object (
      if is_empty d.options
      then described
      else put_field (codes "options") (list_json d.options) described)

module _ (yaml : Yaml) where
  open yaml use {as_str, as_bool, as_sequence, as_mapping}

  unfoldable pub texts : List Value → List Text
  texts [] = []
  texts (v ∷ values) = elim (as_str v) [ none ↦ texts values | some s ↦ s ∷ texts values ]

  abbrev pub get_str : Entries → Text → Option Text
  get_str map key = elim (get yaml map key) [ none ↦ none | some v ↦ as_str v ]

  unfoldable pub option_list : Entries → List Text
  option_list body = elim (get yaml body (codes "options")) [
    | none ↦ []
    | some v ↦ elim (as_sequence v) [
      | none ↦ []
      | some seq ↦ take max_input_options (filter is_option (texts seq))
    ]
  ]

  unfoldable pub required_of : Entries → Bool
  required_of body = elim (get yaml body (codes "required")) [
    | none ↦ false
    | some v ↦ elim (as_bool v) [ none ↦ false | some b ↦ b ]
  ]

  unfoldable pub input_type : Text → Entries → Logged Text
  input_type name body =
      let declared : Text = elim (get_str body (codes "type")) [
        | none ↦ codes "string"
        | some t ↦ t
      ] in
      if contains dispatch_input_types declared then pure declared else (do
        say warning
            (codes "workflow_dispatch input `"
              ++ name
              ++ codes "` has unknown type `"
              ++ take 50 declared
              ++ codes "`; treated as string")
            (input_path name (codes ".type"))
        pure (codes "string"))

  unfoldable pub read_input : Text → Entries → Logged DispatchInput
  read_input name body = do
    declared ← input_type name body
    let options = option_list body
    say_if (text_eq declared (codes "choice") && is_empty options) warning
        (codes "workflow_dispatch choice input `" ++ name ++ codes "` defines no options")
        (input_path name (codes ".options"))
    pure (record {
      name = name;
      input_type = declared;
      required = required_of body;
      description = elim (get_str body (codes "description")) [
        | none ↦ none
        | some s ↦ some (take 500 s)
      ];
      default = default_text (get yaml body (codes "default"));
      options = options;
    })

  -- A bare `name:` has all defaults.
  unfoldable pub input_body : Value → Option Entries
  input_body null = some Entries.end
  input_body v = as_mapping v

  -- The loop over the inputs, which skips those it cannot read.
  unfoldable pub read_inputs : List (Value × Value) → Logged (List DispatchInput)
  read_inputs [] = pure []
  read_inputs ((key, body) ∷ rest) =
      let others = read_inputs rest in
      elim (input_name key) [
        | none ↦ do
          say warning (codes "workflow_dispatch input with an invalid name was ignored") inputs_path
          others
        | some name ↦ elim (input_body body) [
          | none ↦ do
            say warning (codes "workflow_dispatch input `" ++ name ++ codes "` must be a mapping")
                (input_path name [])
            others
          | some map ↦ do d ← read_input name map; ds ← others; pure (d ∷ ds)
        ]
      ]

  unfoldable pub inputs_of : Entries → Option Entries
  inputs_of root = elim (on_value yaml root) [
    | none ↦ none
    | some on ↦ elim (as_mapping on) [
      | none ↦ none
      | some events ↦ elim (get_mapping yaml events (codes "workflow_dispatch")) [
        | none ↦ none
        | some dispatch ↦ get_mapping yaml dispatch (codes "inputs")
      ]
    ]
  ]

  unfoldable pub extract_dispatch_inputs : Entries → Logged (List DispatchInput)
  extract_dispatch_inputs root = elim (inputs_of root) [
    | none ↦ pure []
    | some inputs ↦ do
      say_if (ltb max_dispatch_inputs (length (entries inputs))) warning
          (codes "workflow_dispatch defines more than 25 inputs; extras are ignored") inputs_path
      read_inputs (take max_dispatch_inputs (entries inputs))
  ]
