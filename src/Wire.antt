-- ===== src/Wire.antt =====
-- The framing of python/mpubsub/wire.py: `encode` and `decode`, with `_build_header`,
-- `aead_body_len` and `DecodedMessage`. The optional AEAD package (`_FastAEAD`) and the hashes are
-- arguments; so are the wall clock and `os.urandom`, which `encode` reads where its caller gives no
-- timestamp or nonce. A `ValueError` or a `WireError` is a `raise`.
pub mod Header
pub mod Encode
pub mod RoundTrip
pub mod Decode
pub mod Bounds
use Prim.Native.Nat.{bit_and}
use mathlib.Core.Option
use esphome_multicast_pubsub.Prelude.{
  ℕ, zero, suc, ◌+◌, ◌-◌, Bool, true, false, not, ◌&&◌, ◌||◌, Option, none, some, List, [], ◌∷◌,
  ◌++◌, length, get_or, take, drop, Result, ok, raise, wire_error, value_error, index_error,
  struct_error, ◌>>=◌, ◌>>◌, raise_if, ltb, ◌==◌, if◌then◌else◌,
}
use esphome_multicast_pubsub.Prelude.Bytes.{to_le, from_le}
use esphome_multicast_pubsub.Aead.{
  FastCipher, aead_nonce_len, aead_prefix_len, aead_tag_len, aead_encrypt, aead_decrypt,
}
use esphome_multicast_pubsub.Topic.{Hashes, topic_crc32}

abbrev pub magic : List ℕ
magic = b'M' ∷ b'P' ∷ []

abbrev pub version : ℕ
version = 0x01

abbrev pub header_len : ℕ
header_len = 12

abbrev pub max_datagram : ℕ
max_datagram = 1232

abbrev pub max_payload : ℕ
max_payload = max_datagram - header_len

abbrev pub encoding_raw : ℕ
encoding_raw = 0x00

abbrev pub encoding_protobuf : ℕ
encoding_protobuf = 0x01

abbrev pub enc_mode_none : ℕ
enc_mode_none = 0x00

abbrev pub enc_mode_aead : ℕ
enc_mode_aead = 0x01

abbrev pub default_port : ℕ
default_port = 18512

-- encoding in KNOWN_ENCODINGS
unfoldable pub is_known_encoding : ℕ → Bool
is_known_encoding encoding = encoding == encoding_raw || encoding == encoding_protobuf

-- enc_mode in KNOWN_ENC_MODES
unfoldable pub is_known_enc_mode : ℕ → Bool
is_known_enc_mode mode = mode == enc_mode_none || mode == enc_mode_aead

unfoldable pub aead_body_len : ℕ → ℕ
aead_body_len payload_len = aead_nonce_len + aead_prefix_len + payload_len + aead_tag_len

-- a == b, for bytes
unfoldable pub bytes_eq : List ℕ → List ℕ → Bool
bytes_eq [] [] = true
bytes_eq [] (y ∷ b) = false
bytes_eq (x ∷ a) [] = false
bytes_eq (x ∷ a) (y ∷ b) = x == y && bytes_eq a b

-- b[i]
unfoldable pub byte_at : List ℕ → ℕ → Result ℕ
byte_at b i = if ltb i (length b) then ok (get_or b i 0) else raise index_error

-- b[start:stop]
abbrev pub slice : List ℕ → ℕ → ℕ → List ℕ
slice b start stop = take (stop - start) (drop start b)

unfoldable pub build_header : ℕ → ℕ → ℕ → ℕ → List ℕ
build_header header_crc encoding payload_len enc_mode =
    magic
    ++ (version
        ∷ bit_and encoding 0xFF
        ∷ (to_le 4 header_crc ++ (to_le 2 payload_len ++ (enc_mode ∷ 0 ∷ []))))

-- What `encode` reads of its surroundings: `int(time.time())` and `os.urandom(12)`.
pub record Env : Type 0 where
  pub now : ℕ
  pub urandom : List ℕ

pub record DecodedMessage : Type 0 where
  pub topic_crc : ℕ
  pub encoding : ℕ
  pub payload : List ℕ
  pub timestamp : Option ℕ
  pub nonce : Option ℕ
  pub was_encrypted : Bool

-- The message of a decrypted plaintext. The replay key is the low 32 bits of the AEAD nonce.
abbrev pub opened : ℕ → List ℕ → List ℕ → DecodedMessage
opened encoding aead_nonce plaintext = record {
  topic_crc = from_le (take 4 plaintext);
  encoding = encoding;
  payload = drop aead_prefix_len plaintext;
  timestamp = some (from_le (slice plaintext 4 aead_prefix_len));
  nonce = some (from_le (take 4 aead_nonce));
  was_encrypted = true;
}

-- struct.unpack("<IH", b)
unfoldable pub unpack_header : List ℕ → Result (ℕ × ℕ)
unpack_header b =
    if length b == 6 then ok (from_le (take 4 b), from_le (drop 4 b)) else raise struct_error

-- The message of a decrypted plaintext, whose first bytes `struct.unpack("<II", …)` reads.
unfoldable pub unpack_opened : ℕ → List ℕ → List ℕ → Result DecodedMessage
unpack_opened encoding aead_nonce plaintext =
    if length (slice plaintext 0 aead_prefix_len) == 8
    then ok (opened encoding aead_nonce plaintext)
    else raise struct_error

module _ (fast : Option FastCipher) where
  -- `encode` from `if len(key) != 32` on.
  unfoldable pub encode_encrypted : ℕ → List ℕ → ℕ → List ℕ → ℕ → List ℕ → Result (List ℕ)
  unfolding aead_body_len
  encode_encrypted crc payload encoding key timestamp nonce = do
    raise_if (not (length key == 32)) value_error
    raise_if (not (length nonce == aead_nonce_len)) value_error
    let body_len = aead_body_len (length payload)
    raise_if (ltb max_datagram (header_len + body_len)) value_error
    let header = build_header 0 encoding (length payload) enc_mode_aead
    let plaintext = to_le 4 crc ++ (to_le 4 (bit_and timestamp 0xFFFFFFFF) ++ payload)
    let sealed = aead_encrypt fast key nonce plaintext header
    ok (header ++ (nonce ++ (sealed.0 ++ sealed.1)))

  module _ (h : Hashes) (env : Env) where
    unfoldable pub encode :
        List ℕ → List ℕ → ℕ → Option (List ℕ) → Option ℕ → Option (List ℕ) → Result (List ℕ)
    unfolding is_known_encoding encode_encrypted
    encode topic payload encoding key timestamp nonce = do
      raise_if (ltb max_payload (length payload)) value_error
      raise_if (not (is_known_encoding encoding)) value_error
      let crc = topic_crc32 h topic
      elim key [
        | none ↦ ok (build_header crc encoding (length payload) enc_mode_none ++ payload)
        | some k ↦
            encode_encrypted crc payload encoding k (Option.get_or timestamp env.now)
              (Option.get_or nonce env.urandom)
      ]

  -- The branch of `decode` for ENC_MODE_AEAD, once the lengths and the key have been checked.
  unfoldable pub open_body : List ℕ → ℕ → List ℕ → Result DecodedMessage
  unfolding unpack_opened
  open_body packet encoding key = do
    let aead_nonce = slice packet header_len (header_len + aead_nonce_len)
    let ct = slice packet (header_len + aead_nonce_len) (length packet - aead_tag_len)
    let tag = drop (length packet - aead_tag_len) packet
    let aad = take header_len packet
    plaintext ← aead_decrypt fast key aead_nonce ct tag aad
    unpack_opened encoding aead_nonce plaintext

  -- That branch with its checks.
  unfoldable pub decode_encrypted : List ℕ → ℕ → ℕ → Option (List ℕ) → Result DecodedMessage
  unfolding aead_body_len
  decode_encrypted packet encoding payload_len none = do
    raise_if (not (length packet == header_len + aead_body_len payload_len)) wire_error
    raise wire_error
  decode_encrypted packet encoding payload_len (some key) = do
    raise_if (not (length packet == header_len + aead_body_len payload_len)) wire_error
    raise_if (not (length key == 32)) value_error
    open_body packet encoding key

  -- The rest of `decode`, for ENC_MODE_NONE.
  unfoldable pub decode_plain : List ℕ → ℕ → ℕ → ℕ → Result DecodedMessage
  decode_plain packet encoding header_crc payload_len = do
    raise_if (not (header_len + payload_len == length packet)) wire_error
    ok (record {
      topic_crc = header_crc;
      encoding = encoding;
      payload = drop header_len packet;
      timestamp = none;
      nonce = none;
      was_encrypted = false;
    })

  unfoldable pub decode : List ℕ → Option (List ℕ) → Result DecodedMessage
  unfolding bytes_eq is_known_encoding is_known_enc_mode byte_at unpack_header
  decode packet key = do
    raise_if (ltb (length packet) header_len) wire_error
    raise_if (not (bytes_eq (take 2 packet) magic)) wire_error
    v ← byte_at packet 2
    raise_if (not (v == version)) wire_error
    encoding ← byte_at packet 3
    raise_if (not (is_known_encoding encoding)) wire_error
    enc_mode ← byte_at packet 10
    raise_if (not (is_known_enc_mode enc_mode)) wire_error
    (header_crc, payload_len) ← unpack_header (slice packet 4 10)
    if enc_mode == enc_mode_aead
        then decode_encrypted packet encoding payload_len key
        else decode_plain packet encoding header_crc payload_len
