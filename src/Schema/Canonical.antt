-- ===== src/Schema/Canonical.antt =====
-- `canonical_schema_string` and `schema_id` of components/mpubsub/proto_emitter.py.
pub mod Decimal
pub mod Order
use esphome_multicast_pubsub.Prelude.{
  ℕ, ◌%◌, ◌^◌, Bool, true, false, List, [], ◌∷◌, ◌++◌, map, ltb, if◌then◌else◌, codes, join_lines,
  decimal,
}
use esphome_multicast_pubsub.Topic.{Hashes, utf8}
use esphome_multicast_pubsub.Schema.{Field, Message}

-- s <= t, for strings
unfoldable pub text_leb : List ℕ → List ℕ → Bool
text_leb [] t = true
text_leb (x ∷ s) [] = false
text_leb (x ∷ s) (y ∷ t) =
    let rest = text_leb s t in if ltb x y then true else if ltb y x then false else rest

-- sorted(texts)
unfoldable pub insert_text : List ℕ → List (List ℕ) → List (List ℕ)
unfolding text_leb
insert_text t [] = t ∷ []
insert_text t (u ∷ us) =
    let rest = insert_text t us in if text_leb t u then t ∷ u ∷ us else u ∷ rest

unfoldable pub sorted : List (List ℕ) → List (List ℕ)
unfolding insert_text
sorted [] = []
sorted (t ∷ ts) = insert_text t (sorted ts)

unfoldable pub typestr : Field → List ℕ
typestr f = if f.repeated then codes "repeated " ++ f.type_name else f.type_name

unfoldable pub canonical_line : Field → List ℕ
unfolding typestr
canonical_line f = decimal f.tag ++ b':' ∷ typestr f ++ b':' ∷ f.name

unfoldable pub canonical_schema_string : Message → List ℕ
unfolding sorted canonical_line
canonical_schema_string msg = join_lines (sorted (map canonical_line msg.fields))

-- The low 16 bits are the remainder modulo 2 ^ 16.
unfoldable pub schema_id : Hashes → Message → ℕ
unfolding canonical_schema_string
schema_id h msg = h.crc32 (utf8 (canonical_schema_string msg)) % 2 ^ 16
