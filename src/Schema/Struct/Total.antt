-- ===== src/Schema/Struct/Total.antt =====
-- `emit_struct` gives a text for every valid message.
use esphome_multicast_pubsub.Prelude.{
  ℕ, ◌≡◌, ◌↔◌, refl, true, List, [], ◌∷◌, ◌++◌, All, Result, ok, ◌>>=◌, arith, >>=-eq-ok,
}
use esphome_multicast_pubsub.Topic.{Hashes}
use esphome_multicast_pubsub.Client.Publish.Chains.{All-map₁}
use esphome_multicast_pubsub.Schema.{Field, Message, validate}
use esphome_multicast_pubsub.Schema.Valid.{IsValidField, validate_iff}
use esphome_multicast_pubsub.Schema.Types.{TypeInfo, type_info}
use esphome_multicast_pubsub.Schema.Types.Lookup.{is_handled, returns-ok, valid_type_lem}
use esphome_multicast_pubsub.Schema.Members.{
  map_result, emit_member, emit_encode_call, action_value_type, emit_action_setter,
  emit_action_setters,
}
use esphome_multicast_pubsub.Schema.Decode.{decode_cases, no_cases, emit_decode_overrides}
use esphome_multicast_pubsub.Schema.Decode.Overrides.{decode_cases_complete}
use esphome_multicast_pubsub.Schema.Setters.{field_setters, setter_lines, emit_call_setters}
use esphome_multicast_pubsub.Schema.Struct.{emit_struct}

-- A call that returns.
abbrev pub Returns {ℓ} : {A : Type ℓ} → Result A → Type ℓ
Returns {A = A} r = (value : A) × (r ≡ ok value)

-- A call after one that returns.
pub bind_Returns {ℓ κ} :
    {A : Type ℓ} {B : Type κ} (r : Result A) (next : A → Result B)
    → Returns r
    → ((a : A) → Returns (next a))
    → Returns (r >>= next)
bind_Returns r next (a, e) f = rw e (f a)

map_result-Returns {ℓ} :
    {B : Type ℓ} (emit : Field → Result B) (fields : List Field)
    → All (λ f. Returns (emit f)) fields
    → Returns (map_result emit fields)
unfolding map_result
map_result-Returns emit [] all = ([], refl)
map_result-Returns emit (f ∷ fields) all =
    bind_Returns (emit f) (λ y. map_result emit fields >>= λ ys. ok (y ∷ ys)) all.0
      (λ y.
        bind_Returns (map_result emit fields) (λ ys. ok (y ∷ ys))
          (map_result-Returns emit fields all.1) (λ ys. (y ∷ ys, refl)))

known_Returns : (f : Field) → IsValidField f → Returns (type_info f.type_name)
known_Returns f (_, _, _, type) =
    let (info, known, _) = valid_type_lem f.type_name type in (info, known)

emit_member-Returns : (f : Field) → IsValidField f → Returns (emit_member f)
unfolding emit_member
emit_member-Returns f valid =
    bind_Returns (type_info f.type_name) _ (known_Returns f valid) (λ info. (_, refl))

emit_encode_call-Returns : (f : Field) → IsValidField f → Returns (emit_encode_call f)
unfolding emit_encode_call
emit_encode_call-Returns f valid =
    bind_Returns (type_info f.type_name) _ (known_Returns f valid) (λ info. (_, refl))

emit_action_setter-Returns : (f : Field) → IsValidField f → Returns (emit_action_setter f)
unfolding emit_action_setter action_value_type
emit_action_setter-Returns f valid =
    bind_Returns (action_value_type f) _
      (bind_Returns (type_info f.type_name) _ (known_Returns f valid) (λ info. (_, refl)))
      (λ t. (_, refl))

field_setters-Returns :
    (f : Field) (info : TypeInfo)
    → is_handled f.type_name info ≡ true
    → Returns (field_setters f info)
unfolding field_setters
field_setters-Returns f info handled = returns-ok (field_setters f info) (ground (arith, handled))

setter_lines-Returns :
    (so_far : List (List ℕ)) (fields : List Field)
    → All IsValidField fields
    → Returns (setter_lines so_far fields)
unfolding setter_lines
setter_lines-Returns so_far [] valid = (so_far, refl)
setter_lines-Returns so_far (f ∷ fields) ((_, _, _, type), valid) =
    let (info, known, handled) = valid_type_lem f.type_name type in
    let (more, done) = field_setters-Returns f info handled in
    rw (known, done) (setter_lines-Returns (so_far ++ more) fields valid)

each_Returns :
    (emit : Field → Result (List ℕ)) (m : Message)
    → ((f : Field) → IsValidField f → Returns (emit f))
    → All IsValidField m.fields
    → Returns (map_result emit m.fields)
each_Returns emit m each valid = map_result-Returns emit m.fields (All-map₁ each m.fields valid)

emit_decode_overrides-Returns :
    (m : Message) → validate m ≡ ok tt → Returns (emit_decode_overrides m)
unfolding emit_decode_overrides
emit_decode_overrides-Returns m valid =
    bind_Returns (decode_cases no_cases m.fields) _ (_, decode_cases_complete m valid)
      (λ c. (_, refl))

emit_call_setters-Returns :
    (m : Message) → All IsValidField m.fields → Returns (emit_call_setters m)
unfolding emit_call_setters
emit_call_setters-Returns m valid =
    bind_Returns (setter_lines [] m.fields) _ (setter_lines-Returns [] m.fields valid)
      (λ l. (_, refl))

emit_action_setters-Returns :
    (m : Message) → All IsValidField m.fields → Returns (emit_action_setters m)
unfolding emit_action_setters
emit_action_setters-Returns m valid =
    bind_Returns (map_result emit_action_setter m.fields) _
      (each_Returns emit_action_setter m emit_action_setter-Returns valid) (λ l. (_, refl))

pub emit_struct_iff :
    (h : Hashes) (upper : ℕ → List ℕ) (m : Message)
    → Returns (emit_struct h upper m) ↔ (validate m ≡ ok tt)
unfolding emit_struct
emit_struct_iff h upper m = (
  λ (text, e). let (unit, valid, _) = >>=-eq-ok (validate m) _ e in valid,
  λ valid.
      let (_, _, fields, _) = (validate_iff m).0 valid in
      rw valid (
        bind_Returns (map_result emit_member m.fields) _
          (each_Returns emit_member m emit_member-Returns fields)
          (λ members.
            bind_Returns (map_result emit_encode_call m.fields) _
              (each_Returns emit_encode_call m emit_encode_call-Returns fields)
              (λ calls.
                bind_Returns (emit_decode_overrides m) _ (emit_decode_overrides-Returns m valid)
                  (λ overrides.
                    bind_Returns (emit_call_setters m) _ (emit_call_setters-Returns m fields)
                      (λ setters.
                        bind_Returns (emit_action_setters m) _
                          (emit_action_setters-Returns m fields) (λ action_setters. (_, refl))))))),
)
