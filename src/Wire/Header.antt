-- ===== src/Wire/Header.antt =====
-- The fields of the 12-byte header, as `decode` reads them.
use esphome_multicast_pubsub.Prelude.{ℕ, ◌^◌, ◌<◌, ◌≡◌, refl, Option, List, ◌++◌, length, arith}
use esphome_multicast_pubsub.Prelude.Bytes.{from_le-to_le}
use esphome_multicast_pubsub.Aead.{FastCipher}
use esphome_multicast_pubsub.Wire.{build_header, decode, decode_plain, decode_encrypted}
use esphome_multicast_pubsub.Wire.Encode.{IsKnownEncoding}

pub length-build_header : (crc e n m : ℕ) → length (build_header crc e n m) ≡ 12
unfolding build_header
length-build_header crc e n m = refl

module _ (fast : Option FastCipher) (key : Option (List ℕ)) (crc encoding payload_len : ℕ)
    (rest : List ℕ) (fits_crc : crc < 2 ^ 32) (fits_len : payload_len < 2 ^ 16)
    (known : IsKnownEncoding encoding) where
  -- `decode` reads back what `_build_header` wrote, whatever follows the header.
  pub decode-build_header_plain :
      let d = build_header crc encoding payload_len 0 ++ rest in
      decode fast d key ≡ decode_plain fast d encoding crc payload_len
  unfolding decode build_header
  decode-build_header_plain = ground (arith, from_le-to_le 4 crc, from_le-to_le 2 payload_len)

  pub decode-build_header_encrypted :
      let d = build_header crc encoding payload_len 1 ++ rest in
      decode fast d key ≡ decode_encrypted fast d encoding payload_len key
  unfolding decode build_header
  decode-build_header_encrypted = ground (arith, from_le-to_le 4 crc, from_le-to_le 2 payload_len)
