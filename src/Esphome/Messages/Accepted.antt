-- ===== src/Esphome/Messages/Accepted.antt =====
-- What a list of messages has that the validators accept.
use esphome_multicast_pubsub.Prelude.{
  ℕ, ◌≡◌, refl, sym, ap, ◌∙◌, false, not, ◌||◌, List, [], ◌∷◌, All, Result, ok, raise, invalid,
  ◌>>=◌, raise_if, arith, >>=-eq-ok, ◌==◌,
}
use esphome_multicast_pubsub.Wire.{bytes_eq}
use esphome_multicast_pubsub.Rules.{is_empty}
use esphome_multicast_pubsub.Rules.Component.{
  Letters, field_tag_validator, field_name_validator, message_id_validator, check_chars,
}
use esphome_multicast_pubsub.Client.Publish.Chains.{All-map₁}
use esphome_multicast_pubsub.Schema.{Field, Message, contains_text, is_valid_type, validate}
use esphome_multicast_pubsub.Schema.Members.{map_result}
use esphome_multicast_pubsub.Esphome.Messages.{
  field_type_validator, field_schema, as_invalid, message_validator, check_ids, messages_validator,
}

-- No two messages have one id.
abbrev pub HaveDistinctIds : List Message → Type 0
HaveDistinctIds [] = Unit
HaveDistinctIds (m ∷ messages) =
    All (λ n. bytes_eq m.id n.id ≡ false) messages × HaveDistinctIds messages

abbrev IsUnseen : List (List ℕ) → Message → Type 0
IsUnseen seen m = contains_text m.id seen ≡ false

pub ok_eq {ℓ} : {A : Type ℓ} {a b : A} → ok a ≡ ok b → a ≡ b
ok_eq {a} same = ap (λ r. elim r [ ok x ↦ x | raise why ↦ a ]) same

-- A call that can only return `x`, and does if what follows returns.
only {ℓ κ} :
    {A : Type ℓ} {B : Type κ} (r : Result A) (next : A → Result B) (x : A) {b : B}
    → ((v : A) → r ≡ ok v → v ≡ x)
    → r >>= next ≡ ok b
    → (r ≡ ok x) × (next x ≡ ok b)
only (raise why) next x same e = cc
only (ok v) next x same e = let here = same v refl in (ap ok here, ap next (sym here) ∙ e)

map_result-same {ℓ κ} :
    {A : Type ℓ} {P : A → Type κ} (emit : A → Result A)
    → ((x y : A) → emit x ≡ ok y → (y ≡ x) × P x)
    → (xs ys : List A) → map_result emit xs ≡ ok ys
    → (ys ≡ xs) × All P xs
unfolding map_result
map_result-same emit keeps [] ys e = (sym (ok_eq e), tt)
map_result-same emit keeps (x ∷ xs) ys e =
    let (first, more) = only (emit x) _ x (λ y f. (keeps x y f).0) e in
    let (rest, last) =
      only (map_result emit xs) _ xs (λ zs f. (map_result-same emit keeps xs zs f).0) more in
    (sym (ok_eq last), ((keeps x x first).1, (map_result-same emit keeps xs xs rest).1))

as_invalid-ok : (r : Result (Unit {0})) → as_invalid r ≡ ok tt → r ≡ ok tt
unfolding as_invalid
as_invalid-ok (ok tt) e = refl
as_invalid-ok (raise why) e = cc

module _ (l : Letters) where
  name_same : (v w : List ℕ) → field_name_validator l v ≡ ok w → w ≡ v
  unfolding field_name_validator
  name_same [] w e = cc
  name_same (c ∷ v) w e =
      let (_, more) =
        only (raise_if (not (l.is_alpha c || c == b'_')) invalid) _ tt (λ v f. refl) e in
      let (_, last) = only (check_chars l (b'_' ∷ []) (c ∷ v)) _ tt (λ v f. refl) more in
      sym (ok_eq last)

  id_same : (v w : List ℕ) → message_id_validator l v ≡ ok w → w ≡ v
  unfolding message_id_validator
  id_same [] w e = cc
  id_same (c ∷ v) w e =
      let (_, more) =
        only (raise_if (not (l.is_alpha c || c == b'_')) invalid) _ tt (λ v f. refl) e in
      let (_, last) = only (check_chars l (b'_' ∷ b'-' ∷ []) (c ∷ v)) _ tt (λ v f. refl) more in
      sym (ok_eq last)

  type_same : (v w : List ℕ) → field_type_validator v ≡ ok w → w ≡ v
  unfolding field_type_validator
  type_same v w e =
      let (_, last) = only (raise_if (not (is_valid_type v)) invalid) _ tt (λ v f. refl) e in
      sym (ok_eq last)

  tag_same : (v w : ℕ) → field_tag_validator v ≡ ok w → w ≡ v
  unfolding field_tag_validator
  tag_same v w e = ground (arith, e)

  field_same : (f g : Field) → field_schema l f ≡ ok g → (g ≡ f) × Unit {0}
  unfolding field_schema
  field_same f g e =
      let (_, e₁) = only (field_name_validator l f.name) _ f.name (name_same f.name) e in
      let (_, e₂) =
        only (field_type_validator f.type_name) _ f.type_name (type_same f.type_name) e₁ in
      let (_, e₃) = only (field_tag_validator f.tag) _ f.tag (tag_same f.tag) e₂ in
      (sym (ok_eq e₃), tt)

  fields_same : (fs gs : List Field) → map_result (field_schema l) fs ≡ ok gs → gs ≡ fs
  fields_same fs gs e = (map_result-same (field_schema l) field_same fs gs e).0

  message_same : (m n : Message) → message_validator l m ≡ ok n → (n ≡ m) × (validate m ≡ ok tt)
  unfolding message_validator
  message_same m n e =
      let (_, e₁) = only (message_id_validator l m.id) _ m.id (id_same m.id) e in
      let (_, e₂) =
        only (map_result (field_schema l) m.fields) _ m.fields (fields_same m.fields) e₁ in
      let (_, e₃) = only (raise_if (is_empty m.fields) invalid) _ tt (λ v f. refl) e₂ in
      let (valid, e₄) = only (as_invalid (validate m)) _ tt (λ v f. refl) e₃ in
      (sym (ok_eq e₄), as_invalid-ok (validate m) valid)

unseen_both :
    (id other : List ℕ) (seen : List (List ℕ))
    → contains_text other (id ∷ seen) ≡ false
    → (bytes_eq id other ≡ false) × (contains_text other seen ≡ false)
unfolding contains_text
unseen_both id other seen u = (ground (arith, u), ground (arith, u))

check_ids-distinct :
    (seen : List (List ℕ)) (messages : List Message)
    → check_ids seen messages ≡ ok tt
    → All (IsUnseen seen) messages × HaveDistinctIds messages
unfolding check_ids
check_ids-distinct seen [] e = (tt, tt)
check_ids-distinct seen (m ∷ messages) e =
    let (new, rest) = only (raise_if (contains_text m.id seen) invalid) _ tt (λ v f. refl) e in
    let (unseen, distinct) = check_ids-distinct (m.id ∷ seen) messages rest in
    (
      (ground (arith, new), All-map₁ (λ n u. (unseen_both m.id n.id seen u).1) messages unseen),
      (All-map₁ (λ n u. (unseen_both m.id n.id seen u).0) messages unseen, distinct),
    )

-- The messages that the validators accept are returned as they are, each passes the emitter's
-- `validate`, and no two have one id.
pub messages_validator_sound :
    (l : Letters) (messages value : List Message)
    → messages_validator l messages ≡ ok value
    → (value ≡ messages) × All (λ m. validate m ≡ ok tt) messages × HaveDistinctIds messages
unfolding messages_validator
messages_validator_sound l messages value e =
    let (vs, each, more) = >>=-eq-ok (map_result (message_validator l) messages) _ e in
    let (same, valid) = map_result-same (message_validator l) (message_same l) messages vs each in
    let (_, ids, last) = >>=-eq-ok (check_ids [] vs) _ more in
    (
      sym (ok_eq last) ∙ same,
      valid,
      (check_ids-distinct [] messages (ap (check_ids []) (sym same) ∙ ids)).1,
    )
