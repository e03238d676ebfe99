-- ===== src/Topic/Group.antt =====
-- The layout of a multicast group, and the ranges of the hashes.
use Prim.Native.Nat.{bit_and, bit_or}
use esphome_multicast_pubsub.Prelude.{
  ℕ, ◌+◌, ◌*◌, ◌^◌, ◌<◌, ◌≡◌, ◌↔◌, ◌⊎◌, refl, List, ◌∷◌, length, take, length-take, ok, arith,
}
use esphome_multicast_pubsub.Bits.{mask, or_fields}
use esphome_multicast_pubsub.Topic.{Hashes, utf8, topic_to_group, topic_crc32}

abbrev pub IsScope : ℕ → Type 0
IsScope s = (s ≡ 2) ⊎ (s ≡ 5) ⊎ (s ≡ 8)

second_byte : (s : ℕ) → s < 16 → bit_or (0x1 * 2 ^ 4) (bit_and s 0xF) ≡ 0x10 + s
second_byte s b =
    omega (arith, mask 4 15 s refl, or_fields 4 1 (bit_and s 15) (omega (arith, mask 4 15 s refl)))

module _ (h : Hashes) where
  -- A group exists exactly for the three scopes. Its bytes are FF, 10 + scope, and the first 14 of
  -- the SHA-256 of the topic.
  topic_to_group_iff :
      (topic : List ℕ) (scope : ℕ) (group : List ℕ)
      → (topic_to_group h topic scope ≡ ok group)
        ↔ (IsScope scope × (group ≡ 0xFF ∷ (0x10 + scope) ∷ take 14 (h.sha256 (utf8 topic))))
  unfolding topic_to_group
  topic_to_group_iff topic scope group =
      (λ e. ground (arith, second_byte scope), λ p. ground (arith, second_byte scope))

  pub length-topic_to_group :
      (topic : List ℕ) (scope : ℕ) {group : List ℕ}
      → topic_to_group h topic scope ≡ ok group
      → length group ≡ 16
  length-topic_to_group topic scope {group} e =
      let (s, g) = (topic_to_group_iff topic scope group).0 e in
      rw g (omega (arith, length-take 14 (h.sha256 (utf8 topic)), h.length-sha256 (utf8 topic)))

  pub topic_crc32-lt : (topic : List ℕ) → topic_crc32 h topic < 2 ^ 32
  unfolding topic_crc32
  topic_crc32-lt topic = rw (mask 32 0xFFFFFFFF (h.crc32 (utf8 topic)) refl) (omega arith)
