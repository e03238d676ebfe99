-- ===== src/Schema/Decode/Overrides.antt =====
-- Which cases the decode overrides have.
use esphome_multicast_pubsub.Prelude.{
  ℕ, ◌≡◌, refl, ap, ◌∙◌, true, List, [], ◌∷◌, ◌++◌, All, Result, ok, raise, arith, ◌==◌,
  if◌then◌else◌, append-nil, append_assoc,
}
use esphome_multicast_pubsub.Schema.{Field, Message, validate}
use esphome_multicast_pubsub.Schema.Valid.{IsValidField, validate_iff}
use esphome_multicast_pubsub.Schema.Types.{TypeInfo, type_info}
use esphome_multicast_pubsub.Schema.Types.Lookup.{returns-ok, is_handled, valid_type_lem}
use esphome_multicast_pubsub.Schema.Decode.{
  Cases, no_cases, decode_expr, decode_case, add_case, decode_cases,
}

-- The case of a field, if it has the wire type.
abbrev case_with : ℕ → Field → TypeInfo → Result (List ℕ) → List (List ℕ)
case_with wire f info (raise why) = []
case_with wire f info (ok expr) = if info.wire == wire then decode_case f expr ∷ [] else []

abbrev case_of : ℕ → Field → Result TypeInfo → List (List ℕ)
case_of wire f (raise why) = []
case_of wire f (ok info) = case_with wire f info (decode_expr f.type_name info)

-- The cases of the fields with a wire type, in the order of the fields.
unfoldable pub cases_with : ℕ → List Field → List (List ℕ)
cases_with wire [] = []
cases_with wire (f ∷ fields) = case_of wire f (type_info f.type_name) ++ cases_with wire fields

abbrev pub cases_after : Cases → List Field → Cases
cases_after c fields = record {
  varint_cases = c.varint_cases ++ cases_with 0 fields;
  length_cases = c.length_cases ++ cases_with 2 fields;
  fixed32_cases = c.fixed32_cases ++ cases_with 5 fields;
}

case_of-known :
    (wire : ℕ) (f : Field) (info : TypeInfo) (expr : List ℕ)
    → type_info f.type_name ≡ ok info
    → decode_expr f.type_name info ≡ ok expr
    → case_of wire f (type_info f.type_name)
      ≡ (if info.wire == wire then decode_case f expr ∷ [] else [])
case_of-known wire f info expr known decoded = rw (known, decoded) refl

-- One more case is where the field's own would come first.
cases_after_add :
    (c : Cases) (f : Field) (info : TypeInfo) (expr : List ℕ) (fields : List Field)
    → type_info f.type_name ≡ ok info
    → decode_expr f.type_name info ≡ ok expr
    → is_handled f.type_name info ≡ true
    → cases_after (add_case info.wire (decode_case f expr) c) fields ≡ cases_after c (f ∷ fields)
unfolding cases_with add_case
cases_after_add c f info expr fields known decoded handled = ground (
  arith,
  case_of-known 0 f info expr known decoded,
  case_of-known 2 f info expr known decoded,
  case_of-known 5 f info expr known decoded,
  append_assoc c.varint_cases (decode_case f expr ∷ []) (cases_with 0 fields),
  append_assoc c.length_cases (decode_case f expr ∷ []) (cases_with 2 fields),
  append_assoc c.fixed32_cases (decode_case f expr ∷ []) (cases_with 5 fields),
  handled,
)

decode_cases_cons :
    (c : Cases) (f : Field) (info : TypeInfo) (expr : List ℕ) (fields : List Field)
    → type_info f.type_name ≡ ok info
    → decode_expr f.type_name info ≡ ok expr
    → decode_cases c (f ∷ fields) ≡ decode_cases (add_case info.wire (decode_case f expr) c) fields
unfolding decode_cases
decode_cases_cons c f info expr fields known decoded = rw (known, decoded) refl

-- A field before others that give their cases.
one_more :
    (c : Cases) (f : Field) (info : TypeInfo) (expr : List ℕ) (fields : List Field)
    → type_info f.type_name ≡ ok info
    → decode_expr f.type_name info ≡ ok expr
    → is_handled f.type_name info ≡ true
    → ((d : Cases) → decode_cases d fields ≡ ok (cases_after d fields))
    → decode_cases c (f ∷ fields) ≡ ok (cases_after c (f ∷ fields))
one_more c f info expr fields known decoded handled rest =
    decode_cases_cons c f info expr fields known decoded
    ∙ rest (add_case info.wire (decode_case f expr) c)
    ∙ ap ok (cases_after_add c f info expr fields known decoded handled)

-- The cases of the fields come after those so far.
decode_cases-valid :
    (c : Cases) (fields : List Field)
    → All IsValidField fields
    → decode_cases c fields ≡ ok (cases_after c fields)
unfolding decode_cases cases_with
decode_cases-valid c [] valid = simp append-nil
decode_cases-valid c (f ∷ fields) ((_, _, _, type), valid) =
    let (info, known, handled) = valid_type_lem f.type_name type in
    let (expr, decoded) = returns-ok (decode_expr f.type_name info) (ground (arith, handled)) in
    one_more c f info expr fields known decoded handled (λ d. decode_cases-valid d fields valid)

-- For a message that `validate` accepts, no type is unhandled, and each override has one case for each
-- field with its wire type (0, 2 or 5), in the order of the fields, and no other.
pub decode_cases_complete :
    (m : Message)
    → validate m ≡ ok tt
    → decode_cases no_cases m.fields
      ≡ ok (record {
        varint_cases = cases_with 0 m.fields;
        length_cases = cases_with 2 m.fields;
        fixed32_cases = cases_with 5 m.fields;
      })
decode_cases_complete m valid =
    let (_, _, fields, _) = (validate_iff m).0 valid in decode_cases-valid no_cases m.fields fields
