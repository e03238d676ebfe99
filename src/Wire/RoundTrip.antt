-- ===== src/Wire/RoundTrip.antt =====
-- `decode` after `encode`.
pub mod Slices
use mathlib.Core.Option
use Prim.Native.Nat.{bit_and}
use esphome_multicast_pubsub.Prelude.{
  ℕ, ◌+◌, ◌-◌, ◌*◌, ◌%◌, ◌^◌, ◌≤◌, ◌<◌, ◌≡◌, refl, sym, ap, ◌∙◌, true, false, Option, none, some,
  List, ◌++◌, length, take, drop, Result, ok, arith, length-append, drop-append, ◌>>=◌,
}
use esphome_multicast_pubsub.Prelude.Bytes.{to_le, from_le, from_le-to_le}
use esphome_multicast_pubsub.Bits.{mask}
use esphome_multicast_pubsub.Aead.{FastCipher, aead_encrypt, aead_decrypt}
use esphome_multicast_pubsub.Aead.Laws.{length-aead_encrypt, aead_decrypt-aead_encrypt}
use esphome_multicast_pubsub.Topic.{Hashes, topic_crc32}
use esphome_multicast_pubsub.Topic.Group.{topic_crc32-lt}
use esphome_multicast_pubsub.Wire.{
  Env, DecodedMessage, build_header, encode, decode, decode_plain, decode_encrypted, open_body,
  unpack_opened, slice,
}
use esphome_multicast_pubsub.Wire.Header.{
  length-build_header, decode-build_header_plain, decode-build_header_encrypted,
}
use esphome_multicast_pubsub.Wire.Encode.{
  inner, encrypted_datagram, encode-plain_iff, encode-encrypted_iff,
}
use Slices.{length-parts, nonce_part, ct_part, tag_part, aad_part}

-- What a receiver with the same key is to get.
abbrev pub received_plain : ℕ → ℕ → List ℕ → DecodedMessage
received_plain crc encoding payload = record {
  topic_crc = crc;
  encoding = encoding;
  payload = payload;
  timestamp = none;
  nonce = none;
  was_encrypted = false;
}

abbrev pub received_encrypted : ℕ → ℕ → List ℕ → ℕ → List ℕ → DecodedMessage
received_encrypted crc encoding payload timestamp nonce = record {
  topic_crc = crc;
  encoding = encoding;
  payload = payload;
  timestamp = some (timestamp % 2 ^ 32);
  nonce = some (from_le (take 4 nonce));
  was_encrypted = true;
}

module _ (fast : Option FastCipher) where
  decode_plain-header :
      (crc encoding : ℕ) (payload : List ℕ)
      → decode_plain fast
          (build_header crc encoding (length payload) 0 ++ payload)
          encoding
          crc
          (length payload)
        ≡ ok (received_plain crc encoding payload)
  unfolding decode_plain build_header
  decode_plain-header crc encoding payload = ground arith

  unsealed :
      (crc encoding timestamp : ℕ) (payload nonce : List ℕ)
      → crc < 2 ^ 32
      → unpack_opened encoding nonce (inner fast crc timestamp payload)
        ≡ ok (received_encrypted crc encoding payload timestamp nonce)
  unfolding unpack_opened
  unsealed crc encoding timestamp payload nonce b = ground (
    arith,
    from_le-to_le 4 crc,
    from_le-to_le 4 (bit_and timestamp 0xFFFFFFFF),
    mask 32 0xFFFFFFFF timestamp refl,
  )

  open_body-parts :
      (header nonce ct tag : List ℕ) (encoding : ℕ) (key : List ℕ)
      → length header ≡ 12
      → length nonce ≡ 12
      → length tag ≡ 16
      → open_body fast (header ++ (nonce ++ (ct ++ tag))) encoding key
        ≡ (aead_decrypt fast key nonce ct tag header >>= unpack_opened encoding nonce)
  unfolding open_body
  open_body-parts header nonce ct tag encoding key h n t = rw (
    nonce_part header nonce ct tag h n t,
    ct_part header nonce ct tag h n t,
    tag_part header nonce ct tag h n t,
    aad_part header nonce ct tag h n t,
  )

  decode_encrypted-passes :
      (packet : List ℕ) (encoding payload_len : ℕ) (key : List ℕ)
      → length packet ≡ 48 + payload_len
      → length key ≡ 32
      → decode_encrypted fast packet encoding payload_len (some key)
        ≡ open_body fast packet encoding key
  unfolding decode_encrypted
  decode_encrypted-passes packet encoding payload_len key p k = ground arith

  module _ (h : Hashes) (env : Env) (topic payload : List ℕ) (encoding : ℕ) (timestamp : Option ℕ)
      (given : Option (List ℕ)) where
    -- A plaintext datagram that `encode` returns is decoded, with or without a key, to the topic's
    -- CRC, the encoding and the payload.
    pub decode-encode_plain :
        (key : Option (List ℕ)) {d : List ℕ}
        → encode fast h env topic payload encoding none timestamp given ≡ ok d
        → decode fast d key ≡ ok (received_plain (topic_crc32 h topic) encoding payload)
    decode-encode_plain key {d} e =
        let (fits, known, out) =
          (encode-plain_iff fast h env topic payload encoding timestamp given d).0 e in
        let crc = topic_crc32 h topic in
        ap (λ t. decode fast t key) out
        ∙ decode-build_header_plain fast key crc encoding (length payload) payload
            (topic_crc32-lt h topic) (omega arith) known
        ∙ decode_plain-header crc encoding payload

    -- An encrypted datagram that `encode` returns is decoded with its key to the topic's CRC, the
    -- encoding, the payload, the timestamp modulo 2 ^ 32 and the low 32 bits of the nonce.
    pub decode-encode_encrypted :
        (key : List ℕ) {d : List ℕ}
        → encode fast h env topic payload encoding (some key) timestamp given ≡ ok d
        → decode fast d (some key)
          ≡ ok (
              received_encrypted
                (topic_crc32 h topic)
                encoding
                payload
                (Option.get_or timestamp env.now)
                (Option.get_or given env.urandom))
    decode-encode_encrypted key {d} e =
        let (known, k, n, fits, out) =
          (encode-encrypted_iff fast h env topic payload encoding key timestamp given d).0 e in
        let crc = topic_crc32 h topic in
        let now = Option.get_or timestamp env.now in
        let nonce = Option.get_or given env.urandom in
        let header = build_header 0 encoding (length payload) 1 in
        let plaintext = inner fast crc now payload in
        let (ct, tag) = aead_encrypt fast key nonce plaintext header in
        let (lc, lt) = length-aead_encrypt fast key nonce plaintext header in
        let lh = length-build_header 0 encoding (length payload) 1 in
        ap (λ t. decode fast t (some key)) out
        ∙ decode-build_header_encrypted fast (some key) 0 encoding (length payload)
            (nonce ++ (ct ++ tag)) (omega arith) (omega arith) known
        ∙ decode_encrypted-passes (header ++ (nonce ++ (ct ++ tag))) encoding (length payload) key
            (omega (arith, length-parts header nonce ct tag lh n lt, lc)) k
        ∙ open_body-parts header nonce ct tag encoding key lh n lt
        ∙ ap (λ r. r >>= unpack_opened encoding nonce)
            (aead_decrypt-aead_encrypt fast key nonce plaintext header)
        ∙ unsealed crc encoding now payload nonce (topic_crc32-lt h topic)
