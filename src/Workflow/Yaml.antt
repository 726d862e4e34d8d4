-- ===== src/Workflow/Yaml.antt =====
-- The documents that backend/src/services/workflow_parse.rs reads and writes, by the constructors that it
-- matches on. What the YAML library's accessors do is a parameter.
use overup.Prelude.{Bool, true, false, Option, none, some, List, [], ◌∷◌, Text, codes}

-- `serde_yaml_ng::Value`, with the items of a sequence and the entries of a mapping in their order.
mutual
  pub data Value : Type 0 where
    null : Value
    bool : Bool → Value
    number : Text → Value
    string : Text → Value
    sequence : Items → Value
    mapping : Entries → Value
    tagged : Text → Value → Value

  pub data Items : Type 0 where
    nil : Items
    cons : Value → Items → Items

  pub data Entries : Type 0 where
    end : Entries
    entry : Value → Value → Entries → Entries

-- The items of a sequence and the entries of a mapping, in their order.
abbrev pub items : Items → List Value
items nil = []
items (cons v rest) = v ∷ items rest

abbrev pub entries : Entries → List (Value × Value)
entries end = []
entries (entry key v rest) = (key, v) ∷ entries rest

-- `serde_json::Value`
mutual
  pub data Json : Type 0 where
    null : Json
    bool : Bool → Json
    number : Text → Json
    string : Text → Json
    array : Array → Json
    object : Object → Json

  pub data Array : Type 0 where
    nil : Array
    cons : Json → Array → Array

  pub data Object : Type 0 where
    end : Object
    field : Text → Json → Object → Object

-- The accessors of the library: `as_str`, `as_bool`, `as_sequence`, `as_mapping`, `Mapping::get` and, for
-- names, `Value::get`. A
-- number is printed by `to_string` and made JSON by `serde_json::to_value`, `Null` where that fails.
pub record Yaml : Type 0 where
  pub as_str : Value → Option Text
  pub as_bool : Value → Option Bool
  pub as_sequence : Value → Option (List Value)
  pub as_mapping : Value → Option Entries
  pub lookup : Entries → Value → Option Value
  pub value_get : Value → Text → Option Value
  pub number_json : Text → Json

-- `key_name`: bools are keys too, since YAML 1.1 reads `on` as one.
unfoldable pub key_name : Value → Option Text
key_name (Value.string s) = some s
key_name (Value.bool true) = some (codes "true")
key_name (Value.bool false) = some (codes "false")
key_name _ = none
