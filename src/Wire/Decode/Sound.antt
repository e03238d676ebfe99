-- ===== src/Wire/Decode/Sound.antt =====
-- What a datagram that `decode` accepts looks like.
use esphome_multicast_pubsub.Prelude.{
  ℕ, ◌+◌, ◌-◌, ◌≤◌, ◌≡◌, inl, inr, length-drop, length-take, ap, ◌∙◌, true, false, Option, none,
  some, List, ◌∷◌, ◌++◌, length, get_or, take, drop, ok, arith,
}
use esphome_multicast_pubsub.Prelude.Bytes.{IsBytes, to_le, from_le}
use esphome_multicast_pubsub.Chacha.{chacha20}
use esphome_multicast_pubsub.Poly.{poly1305, poly1305_key}
use esphome_multicast_pubsub.Aead.{FastCipher, aead_decrypt, mac_data}
use esphome_multicast_pubsub.Aead.Laws.{length-aead_decrypt}
use esphome_multicast_pubsub.Aead.Pure.{aead_decrypt_py_iff}
use esphome_multicast_pubsub.Wire.{DecodedMessage, build_header, decode, opened, slice}
use esphome_multicast_pubsub.Wire.Encode.{IsKnownEncoding}
use esphome_multicast_pubsub.Wire.Decode.Branches.{
  open_body-ok, decode_encrypted-ok, decode_plain-ok, decode-ok,
}

-- A packet of at least 12 bytes is its header, field by field, and the rest.
rebuild :
    (packet : List ℕ)
    → 12 ≤ length packet
    → IsBytes packet
    → packet
      ≡ get_or packet 0 0
        ∷ get_or packet 1 0
        ∷ get_or packet 2 0
        ∷ get_or packet 3 0
        ∷ (to_le 4 (from_le (slice packet 4 8))
            ++ (to_le 2 (from_le (slice packet 8 10))
                ++ (get_or packet 10 0 ∷ get_or packet 11 0 ∷ drop 12 packet)))
rebuild (a ∷ b ∷ c ∷ d ∷ e ∷ f ∷ g ∷ h ∷ i ∷ j ∷ k ∷ l ∷ rest) n p = ground arith
rebuild packet n p = absurd (omega arith)

header_bytes :
    (a b v encoding mode crc n : ℕ) (rest : List ℕ)
    → a ≡ b'M'
    → b ≡ b'P'
    → v ≡ 1
    → IsKnownEncoding encoding
    → mode ≡ 0
    → a ∷ b ∷ v ∷ encoding ∷ (to_le 4 crc ++ (to_le 2 n ++ (mode ∷ rest)))
      ≡ take 11 (build_header crc encoding n 0) ++ rest
unfolding build_header
header_bytes a b v encoding mode crc n rest p q r known z = ground arith

module _ (fast : Option FastCipher) where
  -- Without a key no message is accepted as encrypted.
  decode-no_key :
      (packet : List ℕ) {m : DecodedMessage}
      → decode fast packet none ≡ ok m
      → m.was_encrypted ≡ false
  decode-no_key packet h = elim ((decode-ok fast packet none h).5) [
    | inl (mode, e) ↦
        let (k, absurd_key, _, _, _) =
          decode_encrypted-ok fast packet (get_or packet 3 0) (from_le (slice packet 8 10)) none
            e in
        cc absurd_key
    | inr (mode, e) ↦
        (decode_plain-ok fast packet (get_or packet 3 0) (from_le (slice packet 4 8))
          (from_le (slice packet 8 10)) e).4
  ]

  -- A datagram of bytes that is accepted as plaintext is the one that the message would be framed
  -- as, except that byte 11 is not looked at.
  pub decode_plain_sound :
      (packet : List ℕ) (key : Option (List ℕ)) {m : DecodedMessage}
      → IsBytes packet
      → decode fast packet key ≡ ok m
      → m.was_encrypted ≡ false
      → IsKnownEncoding m.encoding
        × (packet
            ≡ take 11 (build_header m.topic_crc m.encoding (length m.payload) 0)
              ++ (get_or packet 11 0 ∷ m.payload))
  decode_plain_sound packet key {m} b h plain = elim ((decode-ok fast packet key h).5) [
    | inl (mode, e) ↦
        let (k, _, _, _, body) =
          decode_encrypted-ok fast packet (get_or packet 3 0) (from_le (slice packet 8 10)) key e in
        let (p, _, message) = open_body-ok fast packet (get_or packet 3 0) k body in
        cc (message, plain)
    | inr (mode, e) ↦
        let (size, crc, encoding, payload, _, _, _) =
          decode_plain-ok fast packet (get_or packet 3 0) (from_le (slice packet 4 8))
            (from_le (slice packet 8 10)) e in
        let (long, m0, m1, v, known, _) = decode-ok fast packet key h in
        let len : length m.payload ≡ from_le (slice packet 8 10) =
          omega (arith, ap length payload, length-drop 12 packet) in
        let whole = rebuild packet long b in
        (
          rw encoding known,
          rw (len, crc, encoding, payload)
              (whole
                ∙ header_bytes (get_or packet 0 0) (get_or packet 1 0) (get_or packet 2 0)
                    (get_or packet 3 0) (get_or packet 10 0) (from_le (slice packet 4 8))
                    (from_le (slice packet 8 10)) (get_or packet 11 0 ∷ drop 12 packet) m0 m1 v
                    known mode),
        )
  ]

  -- An accepted encrypted datagram is as long as its payload and 48 bytes, the key is of 32 bytes,
  -- and the message is the opened plaintext of an AEAD that authenticates.
  pub decode_encrypted_sound :
      (packet key : List ℕ) {m : DecodedMessage}
      → decode fast packet (some key) ≡ ok m
      → m.was_encrypted ≡ true
      → (length key ≡ 32)
        × (length packet ≡ 48 + length m.payload)
        × ((p : List ℕ) × (aead_decrypt fast key
                (slice packet 12 24)
                (slice packet 24 (length packet - 16))
                (drop (length packet - 16) packet)
                (take 12 packet)
              ≡ ok p)
            × (m ≡ opened (get_or packet 3 0) (slice packet 12 24) p))
  decode_encrypted_sound packet key {m} h sealed = elim ((decode-ok fast packet (some key) h).5) [
    | inl (mode, e) ↦
        let (k, same, n, size, body) =
          decode_encrypted-ok fast packet (get_or packet 3 0) (from_le (slice packet 8 10))
            (some key) e in
        let key_eq : k ≡ key = cc same in
        let (p, d, message) = open_body-ok fast packet (get_or packet 3 0) k body in
        let tag : length (drop (length packet - 16) packet) ≡ 16 =
          omega (arith, length-drop (length packet - 16) packet) in
        let opens =
          length-aead_decrypt fast k (slice packet 12 24) (slice packet 24 (length packet - 16))
            (drop (length packet - 16) packet) (take 12 packet) tag d in
        let payload : m.payload ≡ drop 8 p = ap (λ t. t.payload) message in
        (
          rw (← key_eq) n,
          omega (
            arith,
            opens,
            ap length payload,
            length-drop 8 p,
            length-drop 24 packet,
            length-take (length packet - 16 - 24) (drop 24 packet),
          ),
          rw (← key_eq) (p, d, message),
        )
    | inr (mode, e) ↦
        let (_, _, _, _, plain, _, _) =
          decode_plain-ok fast packet (get_or packet 3 0) (from_le (slice packet 4 8))
            (from_le (slice packet 8 10)) e in
        cc (plain, sealed)
  ]

-- With the pure-Python cipher, the last 16 bytes of an accepted encrypted datagram are the Poly1305
-- tag of its header and its ciphertext under the key, and the message is the decrypted text.
pub decode-authentic :
    (packet key : List ℕ) {m : DecodedMessage}
    → decode none packet (some key) ≡ ok m
    → m.was_encrypted ≡ true
    → let nonce = slice packet 12 24 in
      let ct = slice packet 24 (length packet - 16) in
      (drop (length packet - 16) packet
        ≡ poly1305 (poly1305_key key nonce) (mac_data (take 12 packet) ct))
      × (m ≡ opened (get_or packet 3 0) nonce (chacha20 key 1 nonce ct))
unfolding aead_decrypt
decode-authentic packet key h sealed =
    let (_, _, inside) = decode_encrypted_sound none packet key h sealed in
    let (p, d, e) = inside in
    let nonce = slice packet 12 24 in
    let ct = slice packet 24 (length packet - 16) in
    let (t, q) =
      (aead_decrypt_py_iff key nonce ct (drop (length packet - 16) packet) (take 12 packet) p).0
        d in
    (t, e ∙ ap (opened (get_or packet 3 0) nonce) q)
