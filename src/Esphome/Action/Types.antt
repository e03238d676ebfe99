-- ===== src/Esphome/Action/Types.antt =====
-- The two tables of C++ types, TYPE_INFO of proto_emitter.py and `_cpp_value_type` of __init__.py.
use esphome_multicast_pubsub.Prelude.{
  ℕ, ◌≡◌, refl, sym, ap, ◌∙◌, Bool, true, false, List, ◌++◌, All, Result, ok, raise, ◌>>=◌, codes,
  if◌then◌else◌,
}
use esphome_multicast_pubsub.Schema.{Field, is_valid_type, valid_types}
use esphome_multicast_pubsub.Schema.Types.{TypeInfo, type_info}
use esphome_multicast_pubsub.Schema.Types.Lookup.{contains_text-All}
use esphome_multicast_pubsub.Schema.Members.{action_value_type}
use esphome_multicast_pubsub.Esphome.Messages.Accepted.{ok_eq}
use esphome_multicast_pubsub.Esphome.Action.{
  CppType, bool_, int32, int64, uint8, uint32, uint64, float_, std_string, std_vector,
  cpp_value_type, base_of, base_lookup,
}

-- How `cg` writes its types.
pub record Rendering : Type 0 where
  pub render : CppType → List ℕ
  pub bool_text : render bool_ ≡ codes "bool"
  pub int32_text : render int32 ≡ codes "int32_t"
  pub int64_text : render int64 ≡ codes "int64_t"
  pub uint8_text : render uint8 ≡ codes "uint8_t"
  pub uint32_text : render uint32 ≡ codes "uint32_t"
  pub uint64_text : render uint64 ≡ codes "uint64_t"
  pub float_text : render float_ ≡ codes "float"
  pub string_text : render std_string ≡ codes "std::string"
  pub vector_text :
      (t : CppType) → render (std_vector t) ≡ codes "std::vector<" ++ render t ++ codes ">"

abbrev repeat_if : Bool → CppType → CppType
repeat_if repeated base = if repeated then std_vector base else base

repeated_bind :
    (r : Result CppType) (repeated : Bool) {base : CppType}
    → (r >>= λ b. ok (repeat_if false b)) ≡ ok base
    → (r >>= λ b. ok (repeat_if repeated b)) ≡ ok (repeat_if repeated base)
repeated_bind (ok b) repeated e = rw (ok_eq e) refl
repeated_bind (raise why) repeated e = cc

repeated_type :
    (t : List ℕ) (repeated : Bool) {base : CppType}
    → cpp_value_type t false ≡ ok base
    → cpp_value_type t repeated ≡ ok (repeat_if repeated base)
unfolding cpp_value_type
repeated_type t repeated e = repeated_bind (base_of t base_lookup) repeated e

abbrev text_if : Bool → List ℕ → List ℕ
text_if repeated cpp = if repeated then codes "std::vector<" ++ cpp ++ codes ">" else cpp

action_text :
    (f : Field) {info : TypeInfo}
    → type_info f.type_name ≡ ok info
    → action_value_type f ≡ ok (text_if f.repeated info.cpp)
unfolding action_value_type
action_text f e = rw e refl

module _ (g : Rendering) where
  text_of :
      (repeated : Bool) (base : CppType) (cpp : List ℕ)
      → cpp ≡ g.render base
      → text_if repeated cpp ≡ g.render (repeat_if repeated base)
  text_of false base cpp same = same
  text_of true base cpp same =
      ap (λ t. codes "std::vector<" ++ t ++ codes ">") same ∙ sym (g.vector_text base)

  -- Both tables have the name, with the same type.
  abbrev Agree : List ℕ → Type 0
  Agree t =
      (base : CppType) × (info : TypeInfo) × (cpp_value_type t false ≡ ok base)
      × (type_info t ≡ ok info)
      × (info.cpp ≡ g.render base)

  both_tables : All Agree valid_types
  unfolding cpp_value_type type_info codes
  both_tables = (
    (bool_, _, refl, refl, sym g.bool_text),
    (
      (int32, _, refl, refl, sym g.int32_text),
      (
        (int64, _, refl, refl, sym g.int64_text),
        (
          (uint32, _, refl, refl, sym g.uint32_text),
          (
            (uint64, _, refl, refl, sym g.uint64_text),
            (
              (int32, _, refl, refl, sym g.int32_text),
              (
                (int64, _, refl, refl, sym g.int64_text),
                (
                  (float_, _, refl, refl, sym g.float_text),
                  (
                    (std_string, _, refl, refl, sym g.string_text),
                    (
                      (
                        std_vector uint8,
                        _,
                        refl,
                        refl,
                        sym (
                            g.vector_text uint8
                            ∙ ap (λ t. codes "std::vector<" ++ t ++ codes ">") g.uint8_text),
                      ),
                      tt,
                    ),
                  ),
                ),
              ),
            ),
          ),
        ),
      ),
    ),
  )

  types_at :
      (f : Field)
      → Agree f.type_name
      → (type : CppType) × (cpp_value_type f.type_name f.repeated ≡ ok type)
        × (action_value_type f ≡ ok (g.render type))
  types_at f (base, info, here, there, same) = (
    repeat_if f.repeated base,
    repeated_type f.type_name f.repeated here,
    action_text f there ∙ ap ok (text_of f.repeated base info.cpp same),
  )

  -- For a field of a valid type, the setter that `publish_action_to_code` calls takes the C++ type that
  -- the generated action declares for it, once `cg` has written it.
  pub types_agree :
      (f : Field)
      → is_valid_type f.type_name ≡ true
      → (type : CppType) × (cpp_value_type f.type_name f.repeated ≡ ok type)
        × (action_value_type f ≡ ok (g.render type))
  unfolding is_valid_type
  types_agree f valid =
      types_at f (contains_text-All Agree f.type_name valid_types both_tables valid)
