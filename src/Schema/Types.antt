-- ===== src/Schema/Types.antt =====
-- The catalogue of field types, TYPE_INFO of components/mpubsub/proto_emitter.py.
pub mod Lookup
use esphome_multicast_pubsub.Prelude.{
  ℕ, List, [], ◌∷◌, Result, ok, raise, lookup_error, codes, if◌then◌else◌,
}
use esphome_multicast_pubsub.Wire.{bytes_eq}

pub record TypeInfo : Type 0 where
  pub cpp : List ℕ
  pub wire : ℕ
  pub encoder : List ℕ
  pub initial : List ℕ
  pub setter_arg : List ℕ
  pub call_category : List ℕ

abbrev info : List ℕ → List ℕ → ℕ → List ℕ → List ℕ → List ℕ → List ℕ → List ℕ × TypeInfo
info name cpp wire encoder initial setter_arg category = (
  name,
  record {
    cpp = cpp;
    wire = wire;
    encoder = encoder;
    initial = initial;
    setter_arg = setter_arg;
    call_category = category;
  },
)

abbrev pub type_infos : List (List ℕ × TypeInfo)
type_infos =
    info (codes "bool") (codes "bool") 0 (codes "encode_bool") (codes "false") (codes "bool")
      (codes "scalar")
    ∷ info (codes "int32") (codes "int32_t") 0 (codes "encode_int32") (codes "0") (codes "int32_t")
        (codes "scalar")
    ∷ info (codes "int64") (codes "int64_t") 0 (codes "encode_int64") (codes "0") (codes "int64_t")
        (codes "scalar")
    ∷ info (codes "uint32") (codes "uint32_t") 0 (codes "encode_uint32") (codes "0")
        (codes "uint32_t") (codes "scalar")
    ∷ info (codes "uint64") (codes "uint64_t") 0 (codes "encode_uint64") (codes "0")
        (codes "uint64_t") (codes "scalar")
    ∷ info (codes "sint32") (codes "int32_t") 0 (codes "encode_sint32") (codes "0")
        (codes "int32_t") (codes "scalar")
    ∷ info (codes "sint64") (codes "int64_t") 0 (codes "encode_sint64") (codes "0")
        (codes "int64_t") (codes "scalar")
    ∷ info (codes "float") (codes "float") 5 (codes "encode_float") (codes "0.0f") (codes "float")
        (codes "scalar")
    ∷ info (codes "string") (codes "std::string") 2 (codes "encode_string") (codes "\"\"")
        (codes "const std::string &") (codes "string")
    ∷ info (codes "bytes") (codes "std::vector<uint8_t>") 2 (codes "encode_bytes") (codes "{}")
        (codes "std::vector<uint8_t>") (codes "bytes")
    ∷ []

unfoldable pub lookup_type : List ℕ → List (List ℕ × TypeInfo) → Result TypeInfo
unfolding bytes_eq
lookup_type t [] = raise lookup_error
lookup_type t ((name, type_info) ∷ infos) =
    if bytes_eq name t then ok type_info else lookup_type t infos

-- TYPE_INFO[name], or a `KeyError`
unfoldable pub type_info : List ℕ → Result TypeInfo
unfolding lookup_type
type_info t = lookup_type t type_infos
