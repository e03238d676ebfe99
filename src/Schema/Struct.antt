-- ===== src/Schema/Struct.antt =====
-- `emit_struct` and `pascal_case` of components/mpubsub/proto_emitter.py.
pub mod Text
pub mod Total
use esphome_multicast_pubsub.Prelude.{
  ℕ, List, [], ◌∷◌, ◌++◌, ◌==◌, Result, ok, ◌>>=◌, ◌>>◌, if◌then◌else◌, join_lines, replace_code,
}
use esphome_multicast_pubsub.Topic.{Hashes}
use esphome_multicast_pubsub.Schema.{Message, validate}
use esphome_multicast_pubsub.Schema.Canonical.{canonical_schema_string, schema_id}
use esphome_multicast_pubsub.Schema.Members.{
  map_result, emit_member, emit_encode_call, emit_action_setters, emit_action_assignments,
}
use esphome_multicast_pubsub.Schema.Decode.{emit_decode_overrides}
use esphome_multicast_pubsub.Schema.Setters.{emit_call_setters}
use esphome_multicast_pubsub.Schema.Struct.Text.{Parts, struct_text}

-- The parts of a text between the underscores.
unfoldable pub split_words : List ℕ → List (List ℕ)
split_words [] = [] ∷ []
split_words (c ∷ text) =
    let rest = split_words text in
    if c == b'_'
    then [] ∷ rest
    else elim rest [ [] ↦ (c ∷ []) ∷ [] | word ∷ words ↦ (c ∷ word) ∷ words ]

-- The words with their first characters in upper case, as `str.upper` has them; an empty word stays
-- empty.
unfoldable pub capitalized : (ℕ → List ℕ) → List (List ℕ) → List ℕ
capitalized upper [] = []
capitalized upper ([] ∷ words) = capitalized upper words
capitalized upper ((c ∷ word) ∷ words) = upper c ++ word ++ capitalized upper words

unfoldable pub pascal_case : (ℕ → List ℕ) → List ℕ → List ℕ
unfolding split_words capitalized
pascal_case upper name = capitalized upper (split_words (replace_code b'-' (b'_' ∷ []) name))

unfoldable pub emit_struct : Hashes → (ℕ → List ℕ) → Message → Result (List ℕ)
unfolding canonical_schema_string schema_id map_result emit_member emit_encode_call
    emit_action_setters emit_action_assignments emit_decode_overrides emit_call_setters struct_text
    pascal_case
emit_struct h upper msg = do
  validate msg
  members ← map_result emit_member msg.fields
  encode_calls ← map_result emit_encode_call msg.fields
  decode_overrides ← emit_decode_overrides msg
  call_setters ← emit_call_setters msg
  action_setters ← emit_action_setters msg
  let parts : Parts = record {
    id = msg.id;
    canonical =
        replace_code b'\n' (b'\\' ∷ b'n' ∷ [])
          (replace_code b'\\' (b'\\' ∷ b'\\' ∷ []) (canonical_schema_string msg));
    sid = schema_id h msg;
    struct_name = pascal_case upper msg.id;
    members = join_lines members;
    encode_calls = join_lines encode_calls;
    decode_overrides = decode_overrides;
    call_setters = call_setters;
    action_setters = action_setters;
    action_assignments = emit_action_assignments msg;
  }
  ok (struct_text parts)
