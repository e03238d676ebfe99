-- ===== src/Tests/Wire.antt =====
-- Framing: each property at one datagram.
use Prim.Native.Nat.{bit_and, bit_xor}
use esphome_multicast_pubsub.Prelude.{
  ℕ, ◌+◌, ◌-◌, ◌/◌, ◌%◌, ◌^◌, ◌≤◌, ◌≡◌, ◌↔◌, inl, refl, none, some, List, [], ◌∷◌, ◌++◌, length,
  replicate, get_or, take, drop, ok, raise, wire_error, arith,
}
use esphome_multicast_pubsub.Prelude.Bytes.{to_le, from_le, IsBytes}
use esphome_multicast_pubsub.Chacha.{chacha_block, chacha20}
use esphome_multicast_pubsub.Chacha.Keystream.{chacha20-keystream, chacha20-chacha20}
use esphome_multicast_pubsub.Poly.{poly1305, poly1305_key, prime, clamp_mask}
use esphome_multicast_pubsub.Poly.Horner.{block_numbers, polynomial, poly1305-polynomial}
use esphome_multicast_pubsub.Aead.{mac_data, aead_encrypt, aead_decrypt}
use esphome_multicast_pubsub.Aead.Pure.{pure_cipher}
use esphome_multicast_pubsub.Aead.Laws.{aead_decrypt-aead_encrypt}
use esphome_multicast_pubsub.Topic.{topic_crc32}
use esphome_multicast_pubsub.Wire.{build_header, encode, decode, slice, opened, magic, max_datagram}
use esphome_multicast_pubsub.Wire.Encode.{
  IsKnownEncoding, encrypted_datagram, encode-plain_iff, encode-encrypted_iff,
}
use esphome_multicast_pubsub.Wire.RoundTrip.{
  received_plain, received_encrypted, decode-encode_plain, decode-encode_encrypted,
}
use esphome_multicast_pubsub.Wire.Bounds.{overhead, length-encode, encode_hides_topic}
use esphome_multicast_pubsub.Wire.Decode.{decode-raise}
use esphome_multicast_pubsub.Wire.Decode.Sound.{decode_plain_sound, decode-authentic}
use esphome_multicast_pubsub.Tests.Data.{hashes, key, nonce, env, topic, payload}

-- A plaintext datagram, and an encrypted one.
abbrev pub plain : List ℕ
plain = build_header (topic_crc32 hashes topic) 0 2 0 ++ payload

abbrev pub secret : List ℕ
secret = encrypted_datagram none (topic_crc32 hashes topic) payload 0 key 1_700_000_000 nonce

sent_plain : encode none hashes env topic payload 0 none none none ≡ ok plain
sent_plain =
    (encode-plain_iff none hashes env topic payload 0 none none plain).1
      (omega arith, inl refl, refl)

sent_secret : encode none hashes env topic payload 0 (some key) none none ≡ ok secret
sent_secret =
    (encode-encrypted_iff none hashes env topic payload 0 key none none secret).1
      (inl refl, refl, refl, omega arith, refl)

crc_of_topic : topic_crc32 hashes topic ≡ 133447708
unfolding topic_crc32
crc_of_topic = refl

encode-plain_iff_example : (encode none hashes env topic payload 0 none none none ≡ ok plain) ↔ (
    (length payload ≤ 1220)
    × IsKnownEncoding 0
    × (plain ≡ build_header (topic_crc32 hashes topic) 0 2 0 ++ payload))
encode-plain_iff_example = encode-plain_iff none hashes env topic payload 0 none none plain

encode-encrypted_iff_example :
    (encode none hashes env topic payload 0 (some key) none none ≡ ok secret) ↔ (
      IsKnownEncoding 0
      × (length key ≡ 32)
      × (length nonce ≡ 12)
      × (length payload ≤ 1184)
      × (secret
          ≡ encrypted_datagram none (topic_crc32 hashes topic) payload 0 key 1_700_000_000 nonce))
encode-encrypted_iff_example =
    encode-encrypted_iff none hashes env topic payload 0 key none none secret

decode-encode_plain_example :
    decode none plain none ≡ ok (received_plain (topic_crc32 hashes topic) 0 payload)
decode-encode_plain_example =
    decode-encode_plain none hashes env topic payload 0 none none none sent_plain

decode-encode_encrypted_example :
    decode none secret (some key)
    ≡ ok (received_encrypted (topic_crc32 hashes topic) 0 payload 1_700_000_000 nonce)
decode-encode_encrypted_example =
    decode-encode_encrypted none hashes env topic payload 0 none none key sent_secret

pub received_secret :
    decode none secret (some key)
    ≡ ok (received_encrypted (topic_crc32 hashes topic) 0 payload 1_700_000_000 nonce)
received_secret = decode-encode_encrypted none hashes env topic payload 0 none none key sent_secret

decode-authentic_example :
    let ct = slice secret 24 (length secret - 16) in
    (drop (length secret - 16) secret
      ≡ poly1305 (poly1305_key key (slice secret 12 24)) (mac_data (take 12 secret) ct))
    × (received_encrypted (topic_crc32 hashes topic) 0 payload 1_700_000_000 nonce
        ≡ opened (get_or secret 3 0) (slice secret 12 24) (chacha20 key 1 (slice secret 12 24) ct))
decode-authentic_example = decode-authentic secret key received_secret refl

-- The magic alone, which is too short to read the other fields from.
too_short : decode none magic (some key) ≡ raise wire_error
unfolding decode
too_short = refl

decode-raise_example : wire_error ≡ wire_error
decode-raise_example = decode-raise none magic (some key) refl too_short

pub received_plain_lem :
    decode none plain none ≡ ok (received_plain (topic_crc32 hashes topic) 0 payload)
received_plain_lem = decode-encode_plain none hashes env topic payload 0 none none none sent_plain

plain-IsBytes : IsBytes plain
unfolding build_header
plain-IsBytes = omega arith

decode_plain_sound_example :
    IsKnownEncoding 0
    × (plain
        ≡ take 11 (build_header (topic_crc32 hashes topic) 0 2 0) ++ (get_or plain 11 0 ∷ payload))
decode_plain_sound_example =
    decode_plain_sound none plain none plain-IsBytes received_plain_lem refl

length-encode_example :
    (length secret ≡ overhead (some key) + length payload) × (length secret ≤ max_datagram)
length-encode_example =
    length-encode none hashes env topic payload 0 (some key) none none sent_secret

-- Another topic, payload, timestamp and key, with the same nonce.
abbrev other_payload : List ℕ
other_payload = b'u' ∷ b'p' ∷ []

abbrev other_key : List ℕ
other_key = replicate 32 8

abbrev other : List ℕ
other = encrypted_datagram none (topic_crc32 hashes payload) other_payload 0 other_key 5 nonce

sent_given : encode none hashes env topic payload 0 (some key) none (some nonce) ≡ ok secret
sent_given =
    (encode-encrypted_iff none hashes env topic payload 0 key none (some nonce) secret).1
      (inl refl, refl, refl, omega arith, refl)

sent_other :
    encode none hashes env payload other_payload 0 (some other_key) (some 5) (some nonce) ≡ ok other
sent_other =
    (encode-encrypted_iff none hashes env payload other_payload 0 other_key (some 5) (some nonce)
        other).1
      (inl refl, refl, refl, omega arith, refl)

encode_hides_topic_example : take 24 secret ≡ take 24 other
encode_hides_topic_example =
    encode_hides_topic none hashes env topic payload payload other_payload 0 key other_key none
      (some 5) nonce refl sent_given sent_other

poly1305-polynomial_example :
    poly1305 key payload
    ≡ to_le 16 (
        (polynomial (bit_and (from_le (take 16 key)) clamp_mask) (block_numbers 1 payload) % prime
          + from_le (take 16 (drop 16 key)))
        % 2 ^ 128)
poly1305-polynomial_example = poly1305-polynomial key payload

chacha20-keystream_example :
    get_or (chacha20 key 1 nonce payload) 1 0
    ≡ bit_xor (get_or payload 1 0) (get_or (chacha_block key (1 + 1 / 64) nonce) (1 % 64) 0)
chacha20-keystream_example = chacha20-keystream key nonce 1 payload 1 (omega arith)

chacha20-chacha20_example : chacha20 key 1 nonce (chacha20 key 1 nonce payload) ≡ payload
chacha20-chacha20_example = chacha20-chacha20 key nonce 1 payload

aead_decrypt-aead_encrypt_example :
    let (ct, tag) = aead_encrypt (some pure_cipher) key nonce payload [] in
    aead_decrypt (some pure_cipher) key nonce ct tag [] ≡ ok payload
aead_decrypt-aead_encrypt_example =
    aead_decrypt-aead_encrypt (some pure_cipher) key nonce payload []
