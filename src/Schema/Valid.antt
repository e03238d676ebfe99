-- ===== src/Schema/Valid.antt =====
-- Which schemas are valid.
use esphome_multicast_pubsub.Prelude.{
  ℕ, ◌≤◌, ◌≡◌, ◌↔◌, refl, true, false, ◌&&◌, List, [], ◌∷◌, All, ok, leb, ◌==◌, arith,
}
use esphome_multicast_pubsub.Wire.{bytes_eq}
use esphome_multicast_pubsub.Rules.{contains_code, is_empty}
use esphome_multicast_pubsub.Schema.{
  Field, Message, is_valid_type, contains_text, validate_fields, validate,
}
use esphome_multicast_pubsub.Client.Publish.Chains.{All-map₁, All-map₂}

-- A field by itself: a tag that protobuf allows, and a type that there is.
abbrev pub IsValidField : Field → Type 0
IsValidField f =
    (1 ≤ f.tag)
    × (f.tag ≤ 536_870_911)
    × ((leb 19000 f.tag && leb f.tag 19999) ≡ false)
    × (is_valid_type f.type_name ≡ true)

-- Two fields with different tags and names.
abbrev pub AreApart : Field → Field → Type 0
AreApart f g = ((f.tag == g.tag) ≡ false) × (bytes_eq f.name g.name ≡ false)

abbrev pub AreDistinct : List Field → Type 0
AreDistinct [] = Unit
AreDistinct (f ∷ fields) = All (AreApart f) fields × AreDistinct fields

abbrev IsNew : List ℕ → List (List ℕ) → Field → Type 0
IsNew tags names f = (contains_code f.tag tags ≡ false) × (contains_text f.name names ≡ false)

-- What is new beside f is apart from f, and new without it.
IsNew-AreApart :
    (tags : List ℕ) (names : List (List ℕ)) (f g : Field)
    → IsNew (f.tag ∷ tags) (f.name ∷ names) g
    → AreApart f g × IsNew tags names g
unfolding contains_code contains_text
IsNew-AreApart tags names f g (tag, name) =
    ((ground (arith, tag), ground (arith, name)), (ground (arith, tag), ground (arith, name)))

AreApart-IsNew :
    (tags : List ℕ) (names : List (List ℕ)) (f g : Field)
    → AreApart f g
    → IsNew tags names g
    → IsNew (f.tag ∷ tags) (f.name ∷ names) g
unfolding contains_code contains_text
AreApart-IsNew tags names f g (tag, name) (tags_new, names_new) =
    (ground (arith, tag, tags_new), ground (arith, name, names_new))

-- The checks of one field.
validate_fields_cons :
    (tags : List ℕ) (names : List (List ℕ)) (f : Field) (fields : List Field)
    → (validate_fields tags names (f ∷ fields) ≡ ok tt) ↔ (
        IsValidField f
        × IsNew tags names f
        × (validate_fields (f.tag ∷ tags) (f.name ∷ names) fields ≡ ok tt))
unfolding validate_fields
validate_fields_cons tags names f fields = (λ e. ground arith, λ p. ground arith)

validate_fields-AreDistinct :
    (tags : List ℕ) (names : List (List ℕ)) (fields : List Field)
    → validate_fields tags names fields ≡ ok tt
    → All IsValidField fields × AreDistinct fields × All (IsNew tags names) fields
unfolding validate_fields
validate_fields-AreDistinct tags names [] e = (tt, tt, tt)
validate_fields-AreDistinct tags names (f ∷ fields) e =
    let first = (validate_fields_cons tags names f fields).0 e in
    let (valid, distinct, new) =
      validate_fields-AreDistinct (f.tag ∷ tags) (f.name ∷ names) fields first.2 in
    (
      (first.0, valid),
      (All-map₁ (λ g n. (IsNew-AreApart tags names f g n).0) fields new, distinct),
      (first.1, All-map₁ (λ g n. (IsNew-AreApart tags names f g n).1) fields new),
    )

AreDistinct-validate_fields :
    (tags : List ℕ) (names : List (List ℕ)) (fields : List Field)
    → All IsValidField fields
    → AreDistinct fields
    → All (IsNew tags names) fields
    → validate_fields tags names fields ≡ ok tt
unfolding validate_fields
AreDistinct-validate_fields tags names [] valid distinct new = refl
AreDistinct-validate_fields tags names (f ∷ fields) valid distinct new =
    let rest =
      AreDistinct-validate_fields (f.tag ∷ tags) (f.name ∷ names) fields valid.1 distinct.1
        (All-map₂ (λ g a n. AreApart-IsNew tags names f g a n) fields distinct.0 new.1) in
    (validate_fields_cons tags names f fields).1 (valid.0, new.0, rest)

no_seen : (fields : List Field) → All (IsNew [] []) fields
unfolding contains_code contains_text
no_seen [] = tt
no_seen (f ∷ fields) = ((refl, refl), no_seen fields)

-- `validate` accepts a message exactly if it has an id and a field, every field has a tag between 1
-- and 536870911 outside 19000 to 19999 and a known type, and no two fields share a tag or a name.
pub validate_iff :
    (m : Message)
    → (validate m ≡ ok tt) ↔ (
        (is_empty m.id ≡ false)
        × (is_empty m.fields ≡ false)
        × All IsValidField m.fields
        × AreDistinct m.fields)
unfolding validate
validate_iff m = (
  λ e.
      let first : (is_empty m.id ≡ false)
          × (is_empty m.fields ≡ false)
          × (validate_fields [] [] m.fields ≡ ok tt) =
        ground arith in
      let (valid, distinct, _) = validate_fields-AreDistinct [] [] m.fields first.2 in
      (first.0, first.1, valid, distinct),
  λ (id, fields, valid, distinct).
      let rest = AreDistinct-validate_fields [] [] m.fields valid distinct (no_seen m.fields) in
      ground (arith, rest, id, fields),
)
