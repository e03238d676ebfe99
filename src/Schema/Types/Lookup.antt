-- ===== src/Schema/Types/Lookup.antt =====
-- What the emitters can count on for a field of a known type.
use mathlib.Core.Path.{subst}
use esphome_multicast_pubsub.Prelude.{
  ℕ, ◌≡◌, refl, Bool, true, false, ◌&&◌, ◌||◌, List, [], ◌∷◌, All, Result, ok, raise, arith, ◌==◌,
  codes, inl, inr, Bool-cases,
}
use esphome_multicast_pubsub.Wire.{bytes_eq}
use esphome_multicast_pubsub.Schema.{contains_text, valid_types, is_valid_type}
use esphome_multicast_pubsub.Client.Publish.Chains.{bytes_eq-eq}
use esphome_multicast_pubsub.Schema.Types.{TypeInfo, type_info}
use esphome_multicast_pubsub.Schema.Decode.{decode_expr}

abbrev pub returns {ℓ} : {A : Type ℓ} → Result A → Bool
returns (ok value) = true
returns (raise why) = false

pub returns-ok {ℓ} : {A : Type ℓ} (r : Result A) → returns r ≡ true → (value : A) × (r ≡ ok value)
returns-ok (ok value) e = (value, refl)
returns-ok (raise why) e = cc

-- One of the wire types that the emitter handles, and one of the categories.
abbrev pub is_handled : List ℕ → TypeInfo → Bool
is_handled t info =
    returns (decode_expr t info)
    && (info.wire == 0 || info.wire == 5 || info.wire == 2)
    && (bytes_eq info.call_category (codes "scalar")
        || bytes_eq info.call_category (codes "string")
        || bytes_eq info.call_category (codes "bytes"))

abbrev is_known_as : List ℕ → Result TypeInfo → Bool
is_known_as t (ok info) = is_handled t info
is_known_as t (raise why) = false

abbrev is_known : List ℕ → Bool
is_known t = is_known_as t (type_info t)

is_known_as-ok :
    (t : List ℕ) (r : Result TypeInfo)
    → is_known_as t r ≡ true
    → (info : TypeInfo) × (r ≡ ok info) × (is_handled t info ≡ true)
is_known_as-ok t (ok info) e = (info, refl, e)
is_known_as-ok t (raise why) e = cc

known_types : All (λ t. is_known t ≡ true) valid_types
unfolding type_info decode_expr codes
known_types = (refl, (refl, (refl, (refl, (refl, (refl, (refl, (refl, (refl, (refl, tt))))))))))

-- What holds of every text of a list holds of one that is found there.
pub contains_text-All {ℓ} :
    (P : List ℕ → Type ℓ) (t : List ℕ) (xs : List (List ℕ))
    → All P xs
    → contains_text t xs ≡ true
    → P t
unfolding contains_text
contains_text-All P t [] all e = cc
contains_text-All P t (x ∷ xs) all e = elim (Bool-cases (bytes_eq x t)) [
  | inl same ↦ subst P (bytes_eq-eq x t same) all.0
  | inr other ↦ contains_text-All P t xs all.1 (ground (arith, e, other))
]

-- For a valid type there is an entry, an expression that decodes it, a wire type that has an override
-- and a category that has setters.
pub valid_type_lem :
    (t : List ℕ)
    → is_valid_type t ≡ true
    → (info : TypeInfo) × (type_info t ≡ ok info) × (is_handled t info ≡ true)
unfolding is_valid_type
valid_type_lem t valid =
    is_known_as-ok t (type_info t)
      (contains_text-All (λ u. is_known u ≡ true) t valid_types known_types valid)
