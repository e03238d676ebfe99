-- ===== src/Esphome/Action/Fields.antt =====
-- Which typed actions can be generated, and the types of their setters.
use mathlib.Core.Option
use mathlib.Core.Path.{subst}
use esphome_multicast_pubsub.Prelude.{
  ℕ, ◌≡◌, ◌↔◌, refl, ap, ◌∙◌, Bool, true, false, none, some, List, [], ◌∷◌, All, ok, arith, is_some,
  is_some-is_none, >>=-eq-ok, codes, Option-cases, inl, inr,
}
use esphome_multicast_pubsub.Schema.{Field, Message, validate, is_valid_type, valid_types}
use esphome_multicast_pubsub.Schema.Valid.{IsValidField, validate_iff}
use esphome_multicast_pubsub.Schema.Types.Lookup.{returns, returns-ok, contains_text-All}
use esphome_multicast_pubsub.Schema.Struct.Total.{Returns, bind_Returns}
use esphome_multicast_pubsub.Esphome.Codegen.{Registry, lookup_message_schema}
use esphome_multicast_pubsub.Esphome.Action.{
  cpp_value_type, PublishConfig, field_of, check_values, field_statement, set_field, add_fields,
  typed_action, publish_action_to_code,
}

-- The setter types are known for every valid type.
typed : All (λ t. returns (cpp_value_type t false) ≡ true) valid_types
unfolding cpp_value_type codes
typed = (refl, (refl, (refl, (refl, (refl, (refl, (refl, (refl, (refl, (refl, tt))))))))))

repeated_too :
    (t : List ℕ) (repeated : Bool)
    → returns (cpp_value_type t false) ≡ true
    → Returns (cpp_value_type t repeated)
unfolding cpp_value_type
repeated_too t repeated known = returns-ok (cpp_value_type t repeated) (ground (arith, known))

field_typed : (f : Field) → IsValidField f → Returns (cpp_value_type f.type_name f.repeated)
unfolding is_valid_type
field_typed f (_, _, _, valid) = repeated_too f.type_name f.repeated (
    contains_text-All (λ u. returns (cpp_value_type u false) ≡ true) f.type_name valid_types typed
      valid)

field_of-All :
    (P : Field → Type 0) (name : List ℕ) (fields : List Field) (f : Field)
    → All P fields
    → field_of name fields ≡ some f
    → P f
unfolding field_of
field_of-All P name [] f all e = cc
field_of-All P name (g ∷ fields) f all e = elim (Option-cases (field_of name fields)) [
  | inl absent ↦ let same : g ≡ f = ground (arith, e, absent) in subst P same all.0
  | inr (later, found) ↦
      let same : later ≡ f = ground (arith, e, found) in
      field_of-All P name fields f all.1 (found ∙ ap some same)
]

module _ {V : Type 0} where
  -- Every value is for a field.
  abbrev pub AreFields : List Field → List (List ℕ × V) → Type 0
  AreFields fields values = All (λ p. is_some (field_of p.0 fields) ≡ true) values

  check_values_iff :
      (fields : List Field) (values : List (List ℕ × V))
      → (check_values V fields values ≡ ok tt) ↔ AreFields fields values
  unfolding check_values
  check_values_iff fields [] = (λ e. tt, λ all. refl)
  check_values_iff fields ((name, value) ∷ values) =
      let rest = check_values_iff fields values in
      let present = is_some-is_none (field_of name fields) in
      (
        λ e. (ground (arith, e, present), rest.0 (ground (arith, e))),
        λ all. let a = all.0 in let b = rest.1 all.1 in ground (arith, a, b, present),
      )

  field_statement-Returns :
      (name : List ℕ) (value : V) (fields : List Field)
      → All IsValidField fields
      → is_some (field_of name fields) ≡ true
      → Returns (field_statement V name value (field_of name fields))
  field_statement-Returns name value fields valid known =
      elim (Option-cases (field_of name fields))
        as (λ x. Returns (field_statement V name value (field_of name fields))) [
          | inl absent ↦ absurd (ground (arith, absent, known))
          | inr (f, found) ↦
              let (type, e) = field_typed f (field_of-All IsValidField name fields f valid found) in
              rw (found, e) (set_field name value type, refl)
        ]

  add_fields-Returns :
      (fields : List Field) (values : List (List ℕ × V))
      → All IsValidField fields
      → AreFields fields values
      → Returns (add_fields V fields values)
  unfolding add_fields
  add_fields-Returns fields [] valid known = ([], refl)
  add_fields-Returns fields ((name, value) ∷ values) valid (here, known) =
      bind_Returns (field_statement V name value (field_of name fields)) _
        (field_statement-Returns name value fields valid here)
        (λ statement.
          bind_Returns (add_fields V fields values) _ (add_fields-Returns fields values valid known)
            (λ rest. (_, refl)))

  -- For a schema that is valid and registered, code is generated for a typed action exactly if each of
  -- its values is for a field of the schema.
  pub publish_typed_iff :
      (upper : ℕ → List ℕ) (registry : Registry) (config : PublishConfig V) (id : List ℕ)
      (schema : Message)
      → config.payload ≡ none
      → config.message ≡ some id
      → lookup_message_schema id registry ≡ some schema
      → validate schema ≡ ok tt
      → Returns (publish_action_to_code V upper registry config)
        ↔ AreFields schema.fields (Option.get_or config.values [])
  unfolding publish_action_to_code typed_action
  publish_typed_iff upper registry config id schema raw message found valid =
      let (_, _, fields, _) = (validate_iff schema).0 valid in
      let values = Option.get_or config.values [] in
      let checked = check_values_iff schema.fields values in
      rw (raw, message, found)
        (
          (λ (r, e).
              let (_, done, _) = >>=-eq-ok (check_values V schema.fields values) _ e in
              checked.0 done),
          λ all.
              bind_Returns (check_values V schema.fields values) _ (tt, checked.1 all)
                (λ _.
                  bind_Returns (add_fields V schema.fields values) _
                    (add_fields-Returns schema.fields values fields all) (λ rest. (_, refl))),
        )
