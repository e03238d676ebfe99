-- ===== src/Esphome/Action.antt =====
-- The action `mpubsub.publish` of components/mpubsub/__init__.py: `_publish_action_mode_validator`,
-- `publish_action_to_code` and `_cpp_value_type`. A templatable value is of any type.
pub mod Fields
pub mod Types
pub mod Declared
use esphome_multicast_pubsub.Prelude.{
  ℕ, Bool, true, false, not, ◌&&◌, Option, none, some, List, [], ◌∷◌, ◌++◌, Result, ok, raise,
  invalid, lookup_error, ◌>>=◌, ◌>>◌, raise_if, is_none, is_some, if◌then◌else◌, codes,
}
use mathlib.Core.Option
use esphome_multicast_pubsub.Wire.{bytes_eq}
use esphome_multicast_pubsub.Client.{lookup}
use esphome_multicast_pubsub.Schema.{Field, Message}
use esphome_multicast_pubsub.Schema.Struct.{pascal_case}
use esphome_multicast_pubsub.Esphome.Codegen.{Registry, lookup_message_schema}

-- The types of `cg`.
pub data CppType : Type 0 where
  bool_ int32 int64 uint8 int16 uint32 uint64 float_ std_string : CppType
  std_vector : CppType → CppType

abbrev pub base_lookup : List (List ℕ × CppType)
base_lookup =
    (codes "bool", bool_)
    ∷ (codes "int32", int32)
    ∷ (codes "int64", int64)
    ∷ (codes "uint32", uint32)
    ∷ (codes "uint64", uint64)
    ∷ (codes "sint32", int32)
    ∷ (codes "sint64", int64)
    ∷ (codes "float", float_)
    ∷ (codes "string", std_string)
    ∷ (codes "bytes", std_vector uint8)
    ∷ []

-- base_lookup[type_name], or a `KeyError`
unfoldable pub base_of : List ℕ → List (List ℕ × CppType) → Result CppType
unfolding bytes_eq
base_of t [] = raise lookup_error
base_of t ((name, base) ∷ bases) = if bytes_eq name t then ok base else base_of t bases

unfoldable pub cpp_value_type : List ℕ → Bool → Result CppType
unfolding base_of
cpp_value_type type_name repeated = do
  base ← base_of type_name base_lookup
  ok (if repeated then std_vector base else base)

-- The field of a name; a later field of the same name would replace an earlier one, but a valid
-- message has no two.
unfoldable pub field_of : List ℕ → List Field → Option Field
unfolding bytes_eq
field_of name [] = none
field_of name (f ∷ fields) =
    let rest = field_of name fields in
    elim rest [ some g ↦ some g | none ↦ if bytes_eq f.name name then some f else none ]

module _ (V : Type 0) where
  pub record PublishConfig : Type 0 where
    pub topic : V
    pub payload : Option V
    pub message : Option (List ℕ)
    pub retransmit_count : Option V
    pub values : Option (List (List ℕ × V))

  pub data ActionStatement : Type 0 where
    new_action : List ℕ → ActionStatement
    set_topic : V → ActionStatement
    set_payload : V → ActionStatement
    set_count : V → CppType → ActionStatement
    set_field : List ℕ → V → CppType → ActionStatement

  unfoldable pub publish_action_mode_validator : PublishConfig → Result PublishConfig
  publish_action_mode_validator config = do
    let has_payload = is_some config.payload
    let has_message = is_some config.message
    raise_if (has_payload && has_message) invalid
    raise_if (not has_payload && not has_message) invalid
    raise_if (has_message && is_none config.values) invalid
    ok config

  abbrev add_count : Option V → CppType → List ActionStatement
  add_count none type = []
  add_count (some count) type = set_count count type ∷ []

  unfoldable pub raw_action : PublishConfig → V → List ActionStatement
  raw_action config payload =
      (new_action (codes "PublishAction") ∷ set_topic config.topic ∷ set_payload payload ∷ [])
      ++ add_count config.retransmit_count uint8

  unfoldable pub check_values : List Field → List (List ℕ × V) → Result (Unit {0})
  unfolding field_of
  check_values fields [] = ok tt
  check_values fields ((name, value) ∷ values) = do
    raise_if (is_none (field_of name fields)) invalid
    check_values fields values

  abbrev pub field_statement : List ℕ → V → Option Field → Result ActionStatement
  field_statement name value none = raise lookup_error
  field_statement name value (some f) = do
    type ← cpp_value_type f.type_name f.repeated
    ok (set_field name value type)

  unfoldable pub add_fields : List Field → List (List ℕ × V) → Result (List ActionStatement)
  unfolding field_of cpp_value_type
  add_fields fields [] = ok []
  add_fields fields ((name, value) ∷ values) = do
    statement ← field_statement name value (field_of name fields)
    rest ← add_fields fields values
    ok (statement ∷ rest)

  -- With a schema that was found.
  unfoldable pub typed_action :
      (ℕ → List ℕ) → PublishConfig → List ℕ → Option Message → Result (List ActionStatement)
  unfolding check_values add_fields pascal_case
  typed_action upper config message none = raise invalid
  typed_action upper config message (some schema) = do
    let values = Option.get_or config.values []
    check_values schema.fields values
    rest ← add_fields schema.fields values
    ok (
        (new_action (codes "Publish" ++ pascal_case upper message ++ codes "Action")
          ∷ set_topic config.topic
          ∷ [])
        ++ add_count config.retransmit_count int16
        ++ rest)

  unfoldable pub publish_action_to_code :
      (ℕ → List ℕ) → Registry → PublishConfig → Result (List ActionStatement)
  unfolding raw_action typed_action lookup_message_schema
  publish_action_to_code upper registry config = elim config.payload [
    | some payload ↦ ok (raw_action config payload)
    | none ↦ elim config.message [
      | none ↦ raise lookup_error
      | some message ↦ typed_action upper config message (lookup_message_schema message registry)
    ]
  ]
