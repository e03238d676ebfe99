-- ===== src/Wire/Encode.antt =====
-- When `encode` succeeds, and what it then returns.
use mathlib.Core.Option
use Prim.Native.Nat.{bit_and}
use esphome_multicast_pubsub.Prelude.{
  ℕ, ◌≤◌, ◌≡◌, ◌↔◌, ◌⊎◌, Option, none, some, List, ◌++◌, length, ok, arith,
}
use esphome_multicast_pubsub.Prelude.Bytes.{to_le}
use esphome_multicast_pubsub.Aead.{FastCipher, aead_encrypt}
use esphome_multicast_pubsub.Topic.{Hashes, topic_crc32}
use esphome_multicast_pubsub.Wire.{
  Env, build_header, encode, encode_encrypted, enc_mode_none, enc_mode_aead,
}

abbrev pub IsKnownEncoding : ℕ → Type 0
IsKnownEncoding e = (e ≡ 0) ⊎ (e ≡ 1)

module _ (fast : Option FastCipher) where
  -- The plaintext that is sealed, and the datagram around it.
  abbrev pub inner : ℕ → ℕ → List ℕ → List ℕ
  inner crc timestamp payload = to_le 4 crc ++ (to_le 4 (bit_and timestamp 0xFFFFFFFF) ++ payload)

  abbrev pub encrypted_datagram : ℕ → List ℕ → ℕ → List ℕ → ℕ → List ℕ → List ℕ
  encrypted_datagram crc payload encoding key timestamp nonce =
      let header = build_header 0 encoding (length payload) enc_mode_aead in
      let sealed = aead_encrypt fast key nonce (inner crc timestamp payload) header in
      header ++ (nonce ++ (sealed.0 ++ sealed.1))

  encode_encrypted_iff :
      (crc : ℕ) (payload : List ℕ) (encoding : ℕ) (key : List ℕ) (timestamp : ℕ) (nonce d : List ℕ)
      → (encode_encrypted fast crc payload encoding key timestamp nonce ≡ ok d) ↔ (
          (length key ≡ 32)
          × (length nonce ≡ 12)
          × (length payload ≤ 1184)
          × (d ≡ encrypted_datagram crc payload encoding key timestamp nonce))
  unfolding encode_encrypted
  encode_encrypted_iff crc payload encoding key timestamp nonce d =
      (λ e. ground arith, λ p. ground arith)

  module _ (h : Hashes) (env : Env) where
    -- Without a key, `encode` succeeds exactly for a payload of up to 1220 bytes and a known
    -- encoding, and returns the header with the payload behind it.
    pub encode-plain_iff :
        (topic payload : List ℕ) (encoding : ℕ) (timestamp : Option ℕ) (nonce : Option (List ℕ))
        (d : List ℕ)
        → (encode fast h env topic payload encoding none timestamp nonce ≡ ok d) ↔ (
            (length payload ≤ 1220)
            × IsKnownEncoding encoding
            × (d
                ≡ build_header (topic_crc32 h topic) encoding (length payload) enc_mode_none
                  ++ payload))
    unfolding encode
    encode-plain_iff topic payload encoding timestamp given d =
        (λ e. ground arith, λ p. ground arith)

    -- With a key, a call of `encode` returns a datagram exactly for a known encoding, a key of 32
    -- bytes, a nonce of 12 (the given or the drawn one) and a payload of up to 1184 bytes, and the
    -- datagram is the header, the nonce, the ciphertext and the tag.
    pub encode-encrypted_iff :
        (topic payload : List ℕ) (encoding : ℕ) (key : List ℕ) (timestamp : Option ℕ)
        (nonce : Option (List ℕ)) (d : List ℕ)
        → (encode fast h env topic payload encoding (some key) timestamp nonce ≡ ok d) ↔ (
            IsKnownEncoding encoding
            × (length key ≡ 32)
            × (length (Option.get_or nonce env.urandom) ≡ 12)
            × (length payload ≤ 1184)
            × (d
                ≡ encrypted_datagram
                    (topic_crc32 h topic)
                    payload
                    encoding
                    key
                    (Option.get_or timestamp env.now)
                    (Option.get_or nonce env.urandom)))
    unfolding encode
    encode-encrypted_iff topic payload encoding key timestamp given d =
        (λ e. ground arith, λ p. ground arith)
