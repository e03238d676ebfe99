-- ===== src/Schema/Members.antt =====
-- The members of a generated struct and the calls that encode them: `_emit_member`,
-- `_emit_encode_call`, `_action_value_type` and the two emitters of the action.
use esphome_multicast_pubsub.Prelude.{
  ℕ, List, [], ◌∷◌, ◌++◌, map, Result, ok, ◌>>=◌, if◌then◌else◌, codes, join_lines, decimal,
}
use esphome_multicast_pubsub.Wire.{bytes_eq}
use esphome_multicast_pubsub.Schema.{Field, Message}
use esphome_multicast_pubsub.Schema.Types.{type_info}

unfoldable pub emit_member : Field → Result (List ℕ)
unfolding type_info
emit_member f = do
  info ← type_info f.type_name
  ok (
      if f.repeated
      then codes "  std::vector<" ++ info.cpp ++ codes "> " ++ f.name ++ codes ";"
      else codes "  " ++ info.cpp ++ codes " " ++ f.name ++ codes "{" ++ info.initial ++ codes "};")

unfoldable pub encode_repeated_bytes : Field → List ℕ
encode_repeated_bytes f = join_lines (
    (codes "    for (const auto &v : this->" ++ f.name ++ codes ") {")
    ∷ (codes "      esphome::api::ProtoEncode::encode_bytes(pos PROTO_ENCODE_DEBUG_ARG, "
        ++ decimal f.tag
        ++ codes ", v.data(), v.size(), true);")
    ∷ codes "    }"
    ∷ [])

unfoldable pub encode_repeated : Field → List ℕ → List ℕ
encode_repeated f encoder = join_lines (
    (codes "    for (const auto &v : this->" ++ f.name ++ codes ") {")
    ∷ (codes "      esphome::api::ProtoEncode::"
        ++ encoder
        ++ codes "(pos PROTO_ENCODE_DEBUG_ARG, "
        ++ decimal f.tag
        ++ codes ", v, true);")
    ∷ codes "    }"
    ∷ [])

unfoldable pub encode_bytes : Field → List ℕ
encode_bytes f =
    codes "    esphome::api::ProtoEncode::encode_bytes(pos PROTO_ENCODE_DEBUG_ARG, "
    ++ decimal f.tag
    ++ codes ", this->"
    ++ f.name
    ++ codes ".data(), this->"
    ++ f.name
    ++ codes ".size());"

unfoldable pub encode_singular : Field → List ℕ → List ℕ
encode_singular f encoder =
    codes "    esphome::api::ProtoEncode::"
    ++ encoder
    ++ codes "(pos PROTO_ENCODE_DEBUG_ARG, "
    ++ decimal f.tag
    ++ codes ", this->"
    ++ f.name
    ++ codes ");"

unfoldable pub emit_encode_call : Field → Result (List ℕ)
unfolding type_info encode_repeated_bytes encode_repeated encode_bytes encode_singular
emit_encode_call f = do
  info ← type_info f.type_name
  let is_bytes = bytes_eq f.type_name (codes "bytes")
  ok (
      if f.repeated
      then (if is_bytes then encode_repeated_bytes f else encode_repeated f info.encoder)
      else if is_bytes
      then encode_bytes f
      else encode_singular f info.encoder)

unfoldable pub action_value_type : Field → Result (List ℕ)
unfolding type_info
action_value_type f = do
  info ← type_info f.type_name
  ok (if f.repeated then codes "std::vector<" ++ info.cpp ++ codes ">" else info.cpp)

-- What an emitter gives for each field, or the first exception.
unfoldable pub map_result {ℓ κ} :
    {A : Type ℓ} {B : Type κ} → (A → Result B) → List A → Result (List B)
map_result emit [] = ok []
map_result emit (x ∷ xs) = do y ← emit x; ys ← map_result emit xs; ok (y ∷ ys)

unfoldable pub emit_action_setter : Field → Result (List ℕ)
unfolding action_value_type
emit_action_setter f = do
  value_type ← action_value_type f
  ok (codes "  TEMPLATABLE_VALUE(" ++ value_type ++ codes ", " ++ f.name ++ codes ")")

unfoldable pub emit_action_setters : Message → Result (List ℕ)
unfolding emit_action_setter map_result
emit_action_setters msg = do
  setters ← map_result emit_action_setter msg.fields
  ok (join_lines setters)

unfoldable pub emit_action_assignment : Field → List ℕ
emit_action_assignment f =
    codes "    m." ++ f.name ++ codes " = this->" ++ f.name ++ codes "_.value(x...);"

unfoldable pub emit_action_assignments : Message → List ℕ
unfolding emit_action_assignment
emit_action_assignments msg = join_lines (map emit_action_assignment msg.fields)
