-- ===== src/Tests/Schema.antt =====
-- A message schema that is valid.
use mathlib.Core.List.Perm
use esphome_multicast_pubsub.Prelude.{
  codes, join_lines, decimal, replace_code, ℕ, List, ◌-◌, ◌&&◌, leb, if◌then◌else◌, ◌≡◌, ◌↔◌, refl,
  false, [], ◌∷◌, All, ok, raise, value_error,
}
use esphome_multicast_pubsub.Rules.{contains_code, is_empty}
use esphome_multicast_pubsub.Schema.{Field, Message, contains_text, is_valid_type, validate}
use esphome_multicast_pubsub.Schema.Valid.{IsValidField, AreDistinct, validate_iff}
use esphome_multicast_pubsub.Schema.Canonical.{canonical_schema_string, schema_id}
use esphome_multicast_pubsub.Schema.Canonical.Order.{canonical_any_order}
use esphome_multicast_pubsub.Schema.Decode.{no_cases, decode_cases}
use esphome_multicast_pubsub.Schema.Decode.Overrides.{cases_with, decode_cases_complete}
use esphome_multicast_pubsub.Schema.Struct.{pascal_case}
use esphome_multicast_pubsub.Tests.Data.{hashes}

-- "bool x = 1"
abbrev pub flag : Field
flag = record {
  name = b'x' ∷ [];
  type_name = b'b' ∷ b'o' ∷ b'o' ∷ b'l' ∷ [];
  tag = 1;
  repeated = false;
}

abbrev pub status : Message
status = record { id = b's' ∷ []; fields = flag ∷ [] }

pub status_accepted : validate status ≡ ok tt
unfolding validate contains_code contains_text is_valid_type
status_accepted = refl

-- The same field twice.
twice_refused : validate (record status { fields = flag ∷ flag ∷ [] }) ≡ raise value_error
unfolding validate contains_code contains_text is_valid_type
twice_refused = refl

validate_iff_example : (validate status ≡ ok tt) ↔ (
    (is_empty status.id ≡ false)
    × (is_empty status.fields ≡ false)
    × All IsValidField status.fields
    × AreDistinct status.fields)
validate_iff_example = validate_iff status

-- "float t = 10"
abbrev temperature : Field
temperature = record { name = b't' ∷ []; type_name = codes "float"; tag = 10; repeated = false }

abbrev pair : Message
pair = record { id = b's' ∷ []; fields = flag ∷ temperature ∷ [] }

abbrev swapped : Message
swapped = record { id = b's' ∷ []; fields = temperature ∷ flag ∷ [] }

-- As strings, "10" comes before "1:".
pair_canonical : canonical_schema_string pair ≡ codes "10:float:t\n1:bool:x"
unfolding canonical_schema_string codes join_lines decimal
pair_canonical = refl

canonical_any_order_example :
    (canonical_schema_string pair ≡ canonical_schema_string swapped)
    × (schema_id hashes pair ≡ schema_id hashes swapped)
canonical_any_order_example =
    canonical_any_order hashes pair swapped (Perm.swap temperature flag [])

decode_cases_complete_example :
    decode_cases no_cases status.fields
    ≡ ok (record {
      varint_cases = cases_with 0 status.fields;
      length_cases = cases_with 2 status.fields;
      fixed32_cases = cases_with 5 status.fields;
    })
decode_cases_complete_example = decode_cases_complete status status_accepted

-- `str.upper` of the ASCII letters.
abbrev pub upper : ℕ → List ℕ
upper c = (if leb b'a' c && leb c b'z' then c - 32 else c) ∷ []

-- Two ids with one name for their C++ types.
ids_collide :
    (pascal_case upper (codes "room-status") ≡ codes "RoomStatus")
    × (pascal_case upper (codes "room_status") ≡ codes "RoomStatus")
unfolding pascal_case codes replace_code
ids_collide = (refl, refl)

-- An id without a name.
nameless : pascal_case upper (codes "_") ≡ []
unfolding pascal_case codes replace_code
nameless = refl
