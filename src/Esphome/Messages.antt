-- ===== src/Esphome/Messages.antt =====
-- `_field_type_validator`, FIELD_SCHEMA, `_message_validator` and `_messages_validator` of
-- components/mpubsub/__init__.py. One exception stands for those that `cv.Schema` collects.
pub mod Accepted
use esphome_multicast_pubsub.Prelude.{
  ℕ, Bool, not, List, [], ◌∷◌, Result, ok, raise, value_error, wire_error, unicode_encode_error,
  invalid, Error, ◌>>=◌, ◌>>◌, raise_if,
}
use esphome_multicast_pubsub.Rules.{is_empty}
use esphome_multicast_pubsub.Rules.Component.{
  Letters, field_tag_validator, field_name_validator, message_id_validator,
}
use esphome_multicast_pubsub.Schema.{Field, Message, contains_text, is_valid_type, validate}
use esphome_multicast_pubsub.Schema.Members.{map_result}

unfoldable pub field_type_validator : List ℕ → Result (List ℕ)
field_type_validator value = do raise_if (not (is_valid_type value)) invalid; ok value

unfoldable pub field_schema : Letters → Field → Result Field
unfolding field_type_validator field_tag_validator field_name_validator
field_schema l f = do
  name ← field_name_validator l f.name
  type_name ← field_type_validator f.type_name
  tag ← field_tag_validator f.tag
  ok (record { name = name; type_name = type_name; tag = tag; repeated = f.repeated })

-- except ValueError as e: raise cv.Invalid(str(e)) from e
unfoldable pub invalid_for : Error → Error
invalid_for value_error = invalid
invalid_for wire_error = invalid
invalid_for unicode_encode_error = invalid
invalid_for why = why

unfoldable pub as_invalid {ℓ} : {A : Type ℓ} → Result A → Result A
unfolding invalid_for
as_invalid (ok value) = ok value
as_invalid (raise why) = raise (invalid_for why)

unfoldable pub message_validator : Letters → Message → Result Message
unfolding map_result field_schema as_invalid validate message_id_validator is_empty
message_validator l m = do
  id ← message_id_validator l m.id
  fields ← map_result (field_schema l) m.fields
  raise_if (is_empty fields) invalid
  as_invalid (validate (record { id = id; fields = fields }))
  ok (record { id = id; fields = fields })

-- The loop with `seen_ids`.
unfoldable pub check_ids : List (List ℕ) → List Message → Result (Unit {0})
unfolding contains_text
check_ids seen_ids [] = ok tt
check_ids seen_ids (m ∷ messages) = do
  raise_if (contains_text m.id seen_ids) invalid
  check_ids (m.id ∷ seen_ids) messages

unfoldable pub messages_validator : Letters → List Message → Result (List Message)
unfolding map_result message_validator check_ids
messages_validator l messages = do
  value ← map_result (message_validator l) messages
  check_ids [] value
  ok value
