-- ===== src/Schema.antt =====
-- Message schemas of components/mpubsub/proto_emitter.py: `Field`, `Message` and `validate`.
pub mod Valid
pub mod Canonical
pub mod Types
pub mod Members
pub mod Decode
pub mod Setters
pub mod Struct
use esphome_multicast_pubsub.Prelude.{
  ℕ, Bool, true, false, not, ◌&&◌, ◌||◌, List, [], ◌∷◌, Result, ok, raise, value_error, ◌>>=◌, ◌>>◌,
  raise_if, leb, ◌==◌,
}
use esphome_multicast_pubsub.Wire.{bytes_eq}
use esphome_multicast_pubsub.Rules.{contains_code, is_empty}

-- A type's name may be any string until it is checked.
pub record Field : Type 0 where
  pub name : List ℕ
  pub type_name : List ℕ
  pub tag : ℕ
  pub repeated : Bool

pub record Message : Type 0 where
  pub id : List ℕ
  pub fields : List Field

-- The names that TYPE_INFO has.
abbrev pub valid_types : List (List ℕ)
valid_types =
    (b'b' ∷ b'o' ∷ b'o' ∷ b'l' ∷ [])
    ∷ (b'i' ∷ b'n' ∷ b't' ∷ b'3' ∷ b'2' ∷ [])
    ∷ (b'i' ∷ b'n' ∷ b't' ∷ b'6' ∷ b'4' ∷ [])
    ∷ (b'u' ∷ b'i' ∷ b'n' ∷ b't' ∷ b'3' ∷ b'2' ∷ [])
    ∷ (b'u' ∷ b'i' ∷ b'n' ∷ b't' ∷ b'6' ∷ b'4' ∷ [])
    ∷ (b's' ∷ b'i' ∷ b'n' ∷ b't' ∷ b'3' ∷ b'2' ∷ [])
    ∷ (b's' ∷ b'i' ∷ b'n' ∷ b't' ∷ b'6' ∷ b'4' ∷ [])
    ∷ (b'f' ∷ b'l' ∷ b'o' ∷ b'a' ∷ b't' ∷ [])
    ∷ (b's' ∷ b't' ∷ b'r' ∷ b'i' ∷ b'n' ∷ b'g' ∷ [])
    ∷ (b'b' ∷ b'y' ∷ b't' ∷ b'e' ∷ b's' ∷ [])
    ∷ []

-- text in texts
unfoldable pub contains_text : List ℕ → List (List ℕ) → Bool
unfolding bytes_eq
contains_text t [] = false
contains_text t (x ∷ xs) = bytes_eq x t || contains_text t xs

-- f.type in VALID_TYPES
unfoldable pub is_valid_type : List ℕ → Bool
is_valid_type t = contains_text t valid_types

-- The loop of `validate`: `seen_tags` and `seen_names` grow with each field.
unfoldable pub validate_fields : List ℕ → List (List ℕ) → List Field → Result (Unit {0})
validate_fields seen_tags seen_names [] = ok tt
validate_fields seen_tags seen_names (f ∷ fields) = do
  raise_if (not (leb 1 f.tag && leb f.tag 536_870_911)) value_error
  raise_if (leb 19000 f.tag && leb f.tag 19999) value_error
  raise_if (contains_code f.tag seen_tags) value_error
  raise_if (contains_text f.name seen_names) value_error
  raise_if (not (is_valid_type f.type_name)) value_error
  validate_fields (f.tag ∷ seen_tags) (f.name ∷ seen_names) fields

unfoldable pub validate : Message → Result (Unit {0})
unfolding validate_fields is_empty
validate m = do
  raise_if (is_empty m.id) value_error
  raise_if (is_empty m.fields) value_error
  validate_fields [] [] m.fields
