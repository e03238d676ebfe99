-- ===== src/Wire/Decode/Branches.antt =====
-- The branches of `decode`: what a returned message says of the datagram.
use esphome_multicast_pubsub.Prelude.{
  ℕ, ◌+◌, ◌-◌, ◌≤◌, ◌≡◌, ◌⊎◌, refl, false, Option, none, some, List, [], ◌∷◌, length, get_or, take,
  drop, ok, >>=-eq-ok, arith,
}
use esphome_multicast_pubsub.Prelude.Bytes.{from_le}
use esphome_multicast_pubsub.Aead.{FastCipher, aead_decrypt}
use esphome_multicast_pubsub.Wire.{
  DecodedMessage, decode, decode_plain, decode_encrypted, open_body, opened, slice, unpack_opened,
}
use esphome_multicast_pubsub.Wire.Encode.{IsKnownEncoding}

unpack_opened-ok :
    (encoding : ℕ) (nonce p : List ℕ) {m : DecodedMessage}
    → unpack_opened encoding nonce p ≡ ok m
    → m ≡ opened encoding nonce p
unfolding unpack_opened
unpack_opened-ok encoding nonce p h = ground arith

module _ (fast : Option FastCipher) where
  pub open_body-ok :
      (packet : List ℕ) (encoding : ℕ) (key : List ℕ) {m : DecodedMessage}
      → open_body fast packet encoding key ≡ ok m
      → (p : List ℕ) × (aead_decrypt fast key
            (slice packet 12 24)
            (slice packet 24 (length packet - 16))
            (drop (length packet - 16) packet)
            (take 12 packet)
          ≡ ok p)
        × (m ≡ opened encoding (slice packet 12 24) p)
  unfolding open_body
  open_body-ok packet encoding key h =
      let (p, d, e) =
        >>=-eq-ok
          (aead_decrypt fast key (slice packet 12 24) (slice packet 24 (length packet - 16))
            (drop (length packet - 16) packet) (take 12 packet))
          (unpack_opened encoding (slice packet 12 24)) h in
      (p, d, unpack_opened-ok encoding (slice packet 12 24) p e)

  pub decode_encrypted-ok :
      (packet : List ℕ) (encoding payload_len : ℕ) (key : Option (List ℕ)) {m : DecodedMessage}
      → decode_encrypted fast packet encoding payload_len key ≡ ok m
      → (k : List ℕ) × (key ≡ some k)
        × (length k ≡ 32)
        × (length packet ≡ 48 + payload_len)
        × (open_body fast packet encoding k ≡ ok m)
  unfolding decode_encrypted
  decode_encrypted-ok packet encoding payload_len none h = ground arith
  decode_encrypted-ok packet encoding payload_len (some key) h =
      (key, refl, ground arith, ground arith, ground arith)

  pub decode_plain-ok :
      (packet : List ℕ) (encoding header_crc payload_len : ℕ) {m : DecodedMessage}
      → decode_plain fast packet encoding header_crc payload_len ≡ ok m
      → (length packet ≡ 12 + payload_len)
        × (m.topic_crc ≡ header_crc)
        × (m.encoding ≡ encoding)
        × (m.payload ≡ drop 12 packet)
        × (m.was_encrypted ≡ false)
        × (m.timestamp ≡ none)
        × (m.nonce ≡ none)
  unfolding decode_plain
  decode_plain-ok packet encoding header_crc payload_len h = (
    ground arith,
    ground arith,
    ground arith,
    ground arith,
    ground arith,
    ground arith,
    ground arith,
  )

  -- The tests on the header that every accepted datagram passes, and the branch that it takes.
  pub decode-ok :
      (packet : List ℕ) (key : Option (List ℕ)) {m : DecodedMessage}
      → decode fast packet key ≡ ok m
      → (12 ≤ length packet)
        × (get_or packet 0 0 ≡ b'M')
        × (get_or packet 1 0 ≡ b'P')
        × (get_or packet 2 0 ≡ 1)
        × IsKnownEncoding (get_or packet 3 0)
        × (((get_or packet 10 0 ≡ 1)
              × (decode_encrypted fast packet (get_or packet 3 0) (from_le (slice packet 8 10)) key
                  ≡ ok m))
            ⊎ ((get_or packet 10 0 ≡ 0)
                × (decode_plain fast packet
                      (get_or packet 3 0)
                      (from_le (slice packet 4 8))
                      (from_le (slice packet 8 10))
                    ≡ ok m)))
  unfolding decode
  decode-ok [] key h = cc
  decode-ok (a ∷ []) key h = cc
  decode-ok (a ∷ b ∷ packet) key h =
      (ground arith, ground arith, ground arith, ground arith, ground arith, ground arith)
