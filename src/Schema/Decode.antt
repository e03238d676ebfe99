-- ===== src/Schema/Decode.antt =====
-- `_emit_decode_overrides` of components/mpubsub/proto_emitter.py.
pub mod Overrides
use esphome_multicast_pubsub.Prelude.{
  ℕ, Bool, ◌||◌, List, [], ◌∷◌, ◌++◌, Result, ok, raise, assertion_error, ◌>>=◌, ◌==◌,
  if◌then◌else◌, codes, join_lines, decimal,
}
use esphome_multicast_pubsub.Wire.{bytes_eq}
use esphome_multicast_pubsub.Rules.{is_empty}
use esphome_multicast_pubsub.Schema.{Field, Message, contains_text}
use esphome_multicast_pubsub.Schema.Types.{TypeInfo, type_info}

-- The three lists of cases.
pub record Cases : Type 0 where
  pub varint_cases : List (List ℕ)
  pub length_cases : List (List ℕ)
  pub fixed32_cases : List (List ℕ)

abbrev pub no_cases : Cases
no_cases = record { varint_cases = []; length_cases = []; fixed32_cases = [] }

-- The expression that converts the wire value.
unfoldable pub varint_expr : List ℕ → TypeInfo → Result (List ℕ)
unfolding bytes_eq contains_text
varint_expr t info =
    if bytes_eq t (codes "bool")
    then ok (codes "value != 0")
    else if bytes_eq t (codes "sint32")
    then ok (codes "esphome::api::decode_zigzag32(static_cast<uint32_t>(value))")
    else if bytes_eq t (codes "sint64")
    then ok (codes "esphome::api::decode_zigzag64(static_cast<uint64_t>(value))")
    else if contains_text t (codes "int32" ∷ codes "uint32" ∷ codes "int64" ∷ codes "uint64" ∷ [])
    then ok (codes "static_cast<" ++ info.cpp ++ codes ">(value)")
    else raise assertion_error

unfoldable pub length_expr : List ℕ → Result (List ℕ)
unfolding bytes_eq
length_expr t =
    if bytes_eq t (codes "string")
    then ok (codes "std::string(reinterpret_cast<const char *>(value.data()), value.size())")
    else if bytes_eq t (codes "bytes")
    then ok (codes "std::vector<uint8_t>(value.data(), value.data() + value.size())")
    else raise assertion_error

unfoldable pub decode_expr : List ℕ → TypeInfo → Result (List ℕ)
unfolding bytes_eq varint_expr length_expr
decode_expr t info =
    if info.wire == 0
    then varint_expr t info
    else if info.wire == 5
    then ok (
        if bytes_eq t (codes "float") then codes "value.as_float()" else codes "value.as_fixed32()")
    else if info.wire == 2
    then length_expr t
    else raise assertion_error

unfoldable pub decode_case : Field → List ℕ → List ℕ
decode_case f expr =
    if f.repeated
    then codes "      case "
      ++ decimal f.tag
      ++ codes ": this->"
      ++ f.name
      ++ codes ".push_back("
      ++ expr
      ++ codes "); return true;"
    else codes "      case "
      ++ decimal f.tag
      ++ codes ": this->"
      ++ f.name
      ++ codes " = "
      ++ expr
      ++ codes "; return true;"

unfoldable pub add_case : ℕ → List ℕ → Cases → Cases
add_case wire text c =
    if wire == 0
    then record c { varint_cases = c.varint_cases ++ text ∷ [] }
    else if wire == 5
    then record c { fixed32_cases = c.fixed32_cases ++ text ∷ [] }
    else if wire == 2
    then record c { length_cases = c.length_cases ++ text ∷ [] }
    else c

-- The loop over the fields.
unfoldable pub decode_cases : Cases → List Field → Result Cases
unfolding type_info decode_expr decode_case add_case
decode_cases c [] = ok c
decode_cases c (f ∷ fields) = do
  info ← type_info f.type_name
  expr ← decode_expr f.type_name info
  decode_cases (add_case info.wire (decode_case f expr) c) fields

-- `_block`
unfoldable pub block : List (List ℕ) → List ℕ → List ℕ → List ℕ
unfolding is_empty
block cases method arg_type =
    if is_empty cases
    then []
    else codes "  bool "
      ++ method
      ++ codes "(uint32_t field_id, "
      ++ arg_type
      ++ codes " value) override {\n"
      ++ codes "    switch (field_id) {\n"
      ++ join_lines cases
      ++ codes "\n      default: return false;\n    }\n"
      ++ codes "  }\n"

-- (p for p in parts if p)
unfoldable pub non_empty : List (List ℕ) → List (List ℕ)
unfolding is_empty
non_empty [] = []
non_empty (p ∷ parts) = let rest = non_empty parts in if is_empty p then rest else p ∷ rest

unfoldable pub emit_decode_overrides : Message → Result (List ℕ)
unfolding decode_cases block non_empty
emit_decode_overrides msg = do
  c ← decode_cases no_cases msg.fields
  ok (
      join_lines (
        non_empty (
          block c.varint_cases (codes "decode_varint") (codes "esphome::api::proto_varint_value_t")
          ∷ block c.length_cases (codes "decode_length")
              (codes "esphome::api::ProtoLengthDelimited")
          ∷ block c.fixed32_cases (codes "decode_32bit") (codes "esphome::api::Proto32Bit")
          ∷ [])))
