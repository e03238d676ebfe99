-- ===== src/Wire/Decode.antt =====
-- What `decode` accepts, and what it raises.
pub mod Branches
pub mod Sound
use Prim.Native.Nat.{bit_and}
use esphome_multicast_pubsub.Prelude.{
  ℕ, suc, ◌+◌, ◌-◌, ◌*◌, ◌≤◌, ◌<◌, ◌≡◌, ◌⊎◌, refl, sym, ap, ap₂, ◌∙◌, Bool, true, false, ◌&&◌,
  Option, none, some, List, [], ◌∷◌, ◌++◌, length, get_or, take, drop, Result, Error, ok, raise,
  wire_error, value_error, raise_if, ◌>>◌, if◌then◌else◌, not, ltb, ◌>>=◌, >>=-eq-ok, arith,
  length-append, length-take, length-drop, ◌==◌, All,
}
use esphome_multicast_pubsub.Prelude.Bytes.{IsBytes, to_le, from_le, to_le-from_le}
use esphome_multicast_pubsub.Aead.{FastCipher, aead_decrypt}
use esphome_multicast_pubsub.Aead.Laws.{aead_decrypt-raise, length-aead_decrypt}
use esphome_multicast_pubsub.Wire.{
  DecodedMessage, build_header, bytes_eq, decode, decode_plain, decode_encrypted, open_body, opened,
  unpack_opened, slice, is_known_encoding, is_known_enc_mode, enc_mode_aead, header_len, magic,
  version,
}
use esphome_multicast_pubsub.Wire.Encode.{IsKnownEncoding}

-- The keys with which a node can be configured by a passphrase: none, or 32 bytes.
abbrev pub IsKey : Option (List ℕ) → Type 0
IsKey none = Unit
IsKey (some key) = length key ≡ 32

-- What a test and what follows it raise.
test_raise {ℓ} :
    {A : Type ℓ} (test : Bool) (rest : Result A) {e : Error}
    → (rest ≡ raise e → e ≡ wire_error)
    → (raise_if test wire_error >> rest) ≡ raise e
    → e ≡ wire_error
test_raise true rest {e} later h =
    sym (ap (λ r. elim r [ raise why ↦ why | ok value ↦ wire_error ]) h)
test_raise false rest later h = later h

if_raise {ℓ} :
    {A : Type ℓ} (test : Bool) (r s : Result A) {e : Error}
    → (r ≡ raise e → e ≡ wire_error)
    → (s ≡ raise e → e ≡ wire_error)
    → (if test then r else s) ≡ raise e
    → e ≡ wire_error
if_raise true r s first second h = first h
if_raise false r s first second h = second h

-- The header's six bytes are there.
length-fields : (packet : List ℕ) → 12 ≤ length packet → length (slice packet 4 10) ≡ 6
length-fields packet n = omega (arith, length-drop 4 packet, length-take 6 (drop 4 packet))

-- The plaintext's prefix is there.
unpack_opened-plaintext :
    (encoding : ℕ) (nonce p : List ℕ)
    → 8 ≤ length p
    → unpack_opened encoding nonce p ≡ ok (opened encoding nonce p)
unfolding unpack_opened
unpack_opened-plaintext encoding nonce p n = ground (arith, length-take 8 p)

-- A decryption that gives at least eight bytes, or raises a `WireError`, and the message that
-- follows.
opens-raise :
    (encoding : ℕ) (nonce : List ℕ) (opening : Result (List ℕ)) {e : Error}
    → ((p : List ℕ) → opening ≡ ok p → 8 ≤ length p)
    → ((why : Error) → opening ≡ raise why → why ≡ wire_error)
    → (opening >>= unpack_opened encoding nonce) ≡ raise e
    → e ≡ wire_error
opens-raise encoding nonce (ok p) long refused h =
    cc (unpack_opened-plaintext encoding nonce p (long p refl), h)
opens-raise encoding nonce (raise why) long refused h = cc (refused why refl, h)

module _ (fast : Option FastCipher) where
  -- A body that is long enough is opened, or it does not authenticate.
  open_body-raise :
      (packet : List ℕ) (encoding payload_len : ℕ) (key : List ℕ) {e : Error}
      → length packet ≡ 48 + payload_len
      → open_body fast packet encoding key ≡ raise e
      → e ≡ wire_error
  unfolding open_body
  open_body-raise packet encoding payload_len key {e} size h =
      let nonce = slice packet 12 24 in
      let ct = slice packet 24 (length packet - 16) in
      let tag = drop (length packet - 16) packet in
      let aad = take 12 packet in
      let whole_tag : length tag ≡ 16 = omega (arith, length-drop (length packet - 16) packet) in
      let whole_ct : length ct ≡ payload_len + 8 =
        omega
          (arith, length-drop 24 packet, length-take (length packet - 16 - 24) (drop 24 packet)) in
      opens-raise encoding nonce (aead_decrypt fast key nonce ct tag aad)
        (λ p opens.
          omega (arith, length-aead_decrypt fast key nonce ct tag aad whole_tag opens, whole_ct))
        (λ why. aead_decrypt-raise fast key nonce ct tag aad) h

  decode_encrypted-raise :
      (packet : List ℕ) (encoding payload_len : ℕ) (key : Option (List ℕ)) {e : Error}
      → IsKey key
      → decode_encrypted fast packet encoding payload_len key ≡ raise e
      → e ≡ wire_error
  unfolding decode_encrypted
  decode_encrypted-raise packet encoding payload_len none k h = ground arith
  decode_encrypted-raise packet encoding payload_len (some key) {e} k h =
      ground (arith, open_body-raise packet encoding payload_len key {e = e})

  decode_plain-raise :
      (packet : List ℕ) (encoding header_crc payload_len : ℕ) {e : Error}
      → decode_plain fast packet encoding header_crc payload_len ≡ raise e
      → e ≡ wire_error
  unfolding decode_plain
  decode_plain-raise packet encoding header_crc payload_len h = ground arith

  -- With no key or a key of 32 bytes, `decode` raises a `WireError` and nothing else, whatever the
  -- datagram.
  pub decode-raise :
      (packet : List ℕ) (key : Option (List ℕ)) {e : Error}
      → IsKey key
      → decode fast packet key ≡ raise e
      → e ≡ wire_error
  unfolding decode
  decode-raise [] key {e} k h = ground arith
  decode-raise (a ∷ []) key {e} k h = ground arith
  decode-raise (a ∷ b ∷ rest) key {e} k h =
      let packet = a ∷ b ∷ rest in
      ground (
        arith,
        length-drop 4 packet,
        length-take 6 (drop 4 packet),
        decode_encrypted-raise packet (get_or packet 3 0) (from_le (drop 4 (slice packet 4 10))) key
            {e = e} k,
        decode_plain-raise packet (get_or packet 3 0) (from_le (take 4 (slice packet 4 10)))
            (from_le (drop 4 (slice packet 4 10))) {e = e},
      )
