-- ===== src/Topic.antt =====
-- Topics of python/mpubsub/wire.py: `topic_to_group`, `topic_crc32`, and the key from a passphrase,
-- `derive_key`. A `str` is the list of its code points. The topics are those that a client
-- has validated and the passphrases such that they can be encoded: without a lone surrogate. `hashlib.sha256` and `zlib.crc32` are a parameter, `Hashes`.
pub mod Group
use Prim.Native.Nat.{bit_and, bit_or}
use esphome_multicast_pubsub.Prelude.{
  ℕ, ◌+◌, ◌-◌, ◌*◌, ◌/◌, ◌%◌, ◌^◌, ◌≡◌, Bool, false, ◌&&◌, ◌||◌, List, [], ◌∷◌, ◌++◌, length, take,
  Result, ok, raise, value_error, unicode_encode_error, ltb, leb, ◌==◌, if◌then◌else◌,
}
use esphome_multicast_pubsub.Prelude.Bytes.{IsBytes}

pub record Hashes : Type 0 where
  pub sha256 : List ℕ → List ℕ
  pub crc32 : List ℕ → ℕ
  pub length-sha256 : (b : List ℕ) → length (sha256 b) ≡ 32
  pub sha256-IsBytes : (b : List ℕ) → IsBytes (sha256 b)

-- The bytes of one code point.
unfoldable pub utf8_char : ℕ → List ℕ
utf8_char c =
    if ltb c 0x80
    then c ∷ []
    else if ltb c 0x800
    then (0xC0 + c / 64) ∷ (0x80 + c % 64) ∷ []
    else if ltb c 0x10000
    then (0xE0 + c / 4096) ∷ (0x80 + c / 64 % 64) ∷ (0x80 + c % 64) ∷ []
    else (0xF0 + c / 262144) ∷ (0x80 + c / 4096 % 64) ∷ (0x80 + c / 64 % 64) ∷ (0x80 + c % 64) ∷ []

-- The bytes of text.encode("utf-8"), for a text that can be encoded.
unfoldable pub utf8 : List ℕ → List ℕ
unfolding utf8_char
utf8 [] = []
utf8 (c ∷ text) = utf8_char c ++ utf8 text

-- A code point that has no encoding.
unfoldable pub has_surrogate : List ℕ → Bool
has_surrogate [] = false
has_surrogate (c ∷ text) = leb 0xD800 c && leb c 0xDFFF || has_surrogate text

-- text.encode("utf-8")
unfoldable pub encode_utf8 : List ℕ → Result (List ℕ)
unfolding has_surrogate utf8
encode_utf8 text = if has_surrogate text then raise unicode_encode_error else ok (utf8 text)

abbrev pub scope_link_local : ℕ
scope_link_local = 2

abbrev pub scope_site_local : ℕ
scope_site_local = 5

abbrev pub scope_org_local : ℕ
scope_org_local = 8

-- scope in VALID_SCOPES
unfoldable pub is_valid_scope : ℕ → Bool
is_valid_scope scope =
    scope == scope_link_local || scope == scope_site_local || scope == scope_org_local

module _ (h : Hashes) where
  -- An IPv6 address is its 16 bytes.
  unfoldable pub topic_to_group : List ℕ → ℕ → Result (List ℕ)
  unfolding is_valid_scope utf8
  topic_to_group topic scope =
      if is_valid_scope scope
      then (let digest = take 14 (h.sha256 (utf8 topic)) in
          ok (0xFF ∷ bit_or (0x1 * 2 ^ 4) (bit_and scope 0xF) ∷ digest))
      else raise value_error

  unfoldable pub topic_crc32 : List ℕ → ℕ
  unfolding utf8
  topic_crc32 topic = bit_and (h.crc32 (utf8 topic)) 0xFFFFFFFF

  unfoldable pub derive_key : List ℕ → List ℕ
  unfolding utf8
  derive_key passphrase = h.sha256 (utf8 passphrase)
