-- ===== src/Schema/Setters.antt =====
-- `_emit_call_setters` of components/mpubsub/proto_emitter.py.
use esphome_multicast_pubsub.Prelude.{
  ℕ, List, [], ◌∷◌, ◌++◌, Result, ok, raise, assertion_error, ◌>>=◌, if◌then◌else◌, codes,
  join_lines,
}
use esphome_multicast_pubsub.Wire.{bytes_eq}
use esphome_multicast_pubsub.Schema.{Field, Message}
use esphome_multicast_pubsub.Schema.Types.{TypeInfo, type_info}

-- What a repeated string or bytes field has beside the other setters.
unfoldable pub add_setters : List ℕ → List ℕ → List (List ℕ)
unfolding bytes_eq
add_setters n category =
    (if bytes_eq category (codes "string")
      then (codes "    Call &add_"
          ++ n
          ++ codes "(const char *value) { this->msg_."
          ++ n
          ++ codes ".emplace_back(value); return *this; }")
        ∷ []
      else [])
    ++ (if bytes_eq category (codes "bytes")
        then (codes "    Call &add_"
            ++ n
            ++ codes "(const uint8_t *data, size_t len) { this->msg_."
            ++ n
            ++ codes ".emplace_back(data, data + len); return *this; }")
          ∷ (codes "    Call &add_"
              ++ n
              ++ codes "(std::span<const uint8_t> data) { this->msg_."
              ++ n
              ++ codes ".emplace_back(data.begin(), data.end()); return *this; }")
          ∷ []
        else [])

unfoldable pub repeated_setters : List ℕ → TypeInfo → List (List ℕ)
unfolding add_setters
repeated_setters n info =
    (codes "    Call &add_"
      ++ n
      ++ codes "("
      ++ info.setter_arg
      ++ codes " value) { this->msg_."
      ++ n
      ++ codes ".push_back(value); return *this; }")
    ∷ (add_setters n info.call_category
        ++ (codes "    Call &set_"
            ++ n
            ++ codes "(std::vector<"
            ++ info.cpp
            ++ codes "> values) { this->msg_."
            ++ n
            ++ codes " = std::move(values); return *this; }")
          ∷ (codes "    Call &clear_"
              ++ n
              ++ codes "() { this->msg_."
              ++ n
              ++ codes ".clear(); return *this; }")
          ∷ [])

unfoldable pub scalar_setters : List ℕ → TypeInfo → List (List ℕ)
scalar_setters n info =
    let opt = codes "esphome::optional<" ++ info.cpp ++ codes ">" in
    (codes "    Call &set_"
      ++ n
      ++ codes "("
      ++ info.setter_arg
      ++ codes " value) { this->msg_."
      ++ n
      ++ codes " = value; return *this; }")
    ∷ (codes "    Call &set_"
        ++ n
        ++ codes "("
        ++ opt
        ++ codes " value) { if (value.has_value()) this->msg_."
        ++ n
        ++ codes " = *value; return *this; }")
    ∷ []

unfoldable pub string_setters : List ℕ → TypeInfo → List (List ℕ)
string_setters n info =
    let opt = codes "esphome::optional<std::string>" in
    (codes "    Call &set_"
      ++ n
      ++ codes "("
      ++ info.setter_arg
      ++ codes " value) { this->msg_."
      ++ n
      ++ codes " = value; return *this; }")
    ∷ (codes "    Call &set_"
        ++ n
        ++ codes "(const char *value) { this->msg_."
        ++ n
        ++ codes " = value; return *this; }")
    ∷ (codes "    Call &set_"
        ++ n
        ++ codes "("
        ++ opt
        ++ codes " value) { if (value.has_value()) this->msg_."
        ++ n
        ++ codes " = *value; return *this; }")
    ∷ []

unfoldable pub bytes_setters : List ℕ → TypeInfo → List (List ℕ)
bytes_setters n info =
    (codes "    Call &set_"
      ++ n
      ++ codes "("
      ++ info.setter_arg
      ++ codes " value) { this->msg_."
      ++ n
      ++ codes " = std::move(value); return *this; }")
    ∷ (codes "    Call &set_"
        ++ n
        ++ codes "(const uint8_t *data, size_t len) { this->msg_."
        ++ n
        ++ codes ".assign(data, data + len); return *this; }")
    ∷ (codes "    Call &set_"
        ++ n
        ++ codes "(std::span<const uint8_t> data) { this->msg_."
        ++ n
        ++ codes ".assign(data.begin(), data.end()); return *this; }")
    ∷ []

-- The lines of one field.
unfoldable pub field_setters : Field → TypeInfo → Result (List (List ℕ))
unfolding bytes_eq repeated_setters scalar_setters string_setters bytes_setters
field_setters f info =
    let category = info.call_category in
    if f.repeated
    then ok (repeated_setters f.name info)
    else if bytes_eq category (codes "scalar")
    then ok (scalar_setters f.name info)
    else if bytes_eq category (codes "string")
    then ok (string_setters f.name info)
    else if bytes_eq category (codes "bytes")
    then ok (bytes_setters f.name info)
    else raise assertion_error

-- The loop over the fields, with the lines so far.
unfoldable pub setter_lines : List (List ℕ) → List Field → Result (List (List ℕ))
unfolding type_info field_setters
setter_lines so_far [] = ok so_far
setter_lines so_far (f ∷ fields) = do
  info ← type_info f.type_name
  more ← field_setters f info
  setter_lines (so_far ++ more) fields

unfoldable pub emit_call_setters : Message → Result (List ℕ)
unfolding setter_lines
emit_call_setters msg = do setters ← setter_lines [] msg.fields; ok (join_lines setters)
