-- ===== src/Aead.antt =====
-- The AEAD of python/mpubsub/wire.py: `_aead_encrypt_py`, `_aead_decrypt_py` and the entry points
-- `aead_encrypt`, `aead_decrypt`, which hand over to the `cryptography` package where it is there.
-- That package is not part of the repository: a `FastCipher` is its `ChaCha20Poly1305` with what
-- its documentation says of it. `_fast_cipher` only caches such an object for each key.
pub mod Laws
pub mod Pure
use esphome_multicast_pubsub.Prelude.{
  ℕ, ◌+◌, ◌-◌, ◌≡◌, Option, none, some, List, ◌++◌, length, take, drop, Result, ok, raise,
  wire_error, if◌then◌else◌,
}
use esphome_multicast_pubsub.Prelude.Bytes.{IsBytes, to_le}
use esphome_multicast_pubsub.Chacha.{chacha20}
use esphome_multicast_pubsub.Poly.{poly1305, pad16, poly1305_key, ct_eq}

abbrev pub aead_nonce_len : ℕ
aead_nonce_len = 12

abbrev pub aead_tag_len : ℕ
aead_tag_len = 16

abbrev pub aead_prefix_len : ℕ
aead_prefix_len = 8

-- `struct.pack("<QQ", len(aad), len(ct))` is the two lengths, which are far below 2 ^ 64.
unfoldable pub mac_data : List ℕ → List ℕ → List ℕ
unfolding pad16
mac_data aad ct =
    aad ++ (pad16 aad ++ (ct ++ (pad16 ct ++ (to_le 8 (length aad) ++ to_le 8 (length ct)))))

unfoldable pub aead_encrypt_py : List ℕ → List ℕ → List ℕ → List ℕ → List ℕ × List ℕ
unfolding mac_data chacha20 poly1305 poly1305_key
aead_encrypt_py key nonce plaintext aad =
    let otk = poly1305_key key nonce in
    let ct = chacha20 key 1 nonce plaintext in (ct, poly1305 otk (mac_data aad ct))

unfoldable pub aead_decrypt_py : List ℕ → List ℕ → List ℕ → List ℕ → List ℕ → Result (List ℕ)
unfolding mac_data chacha20 poly1305 poly1305_key ct_eq
aead_decrypt_py key nonce ciphertext tag aad =
    let otk = poly1305_key key nonce in
    let expected = poly1305 otk (mac_data aad ciphertext) in
    if ct_eq expected tag then ok (chacha20 key 1 nonce ciphertext) else raise wire_error

-- `ChaCha20Poly1305(key).encrypt(nonce, data, aad)` returns the ciphertext with the tag behind it;
-- `decrypt` returns the plaintext or raises `InvalidTag`, here `none`.
pub record FastCipher : Type 0 where
  pub encrypt : List ℕ → List ℕ → List ℕ → List ℕ → List ℕ
  pub decrypt : List ℕ → List ℕ → List ℕ → List ℕ → Option (List ℕ)
  pub length-encrypt :
      (key nonce plaintext aad : List ℕ)
      → length (encrypt key nonce plaintext aad) ≡ length plaintext + aead_tag_len
  pub decrypt-encrypt :
      (key nonce plaintext aad : List ℕ)
      → decrypt key nonce (encrypt key nonce plaintext aad) aad ≡ some plaintext
  pub length-decrypt :
      (key nonce sealed aad : List ℕ) {plaintext : List ℕ}
      → decrypt key nonce sealed aad ≡ some plaintext
      → length sealed ≡ length plaintext + aead_tag_len

-- sealed[:-AEAD_TAG_LEN], sealed[-AEAD_TAG_LEN:]
unfoldable pub split_tag : List ℕ → List ℕ × List ℕ
split_tag sealed =
    (take (length sealed - aead_tag_len) sealed, drop (length sealed - aead_tag_len) sealed)

-- The argument is `_FastAEAD`, which may be `None`.
unfoldable pub aead_encrypt :
    Option FastCipher → List ℕ → List ℕ → List ℕ → List ℕ → List ℕ × List ℕ
aead_encrypt none key nonce plaintext aad = aead_encrypt_py key nonce plaintext aad
aead_encrypt (some fast) key nonce plaintext aad = split_tag (fast.encrypt key nonce plaintext aad)

-- try: … except InvalidTag: raise WireError
abbrev pub or_invalid_tag : Option (List ℕ) → Result (List ℕ)
or_invalid_tag none = raise wire_error
or_invalid_tag (some plaintext) = ok plaintext

unfoldable pub aead_decrypt :
    Option FastCipher → List ℕ → List ℕ → List ℕ → List ℕ → List ℕ → Result (List ℕ)
aead_decrypt none key nonce ciphertext tag aad = aead_decrypt_py key nonce ciphertext tag aad
aead_decrypt (some fast) key nonce ciphertext tag aad =
    or_invalid_tag (fast.decrypt key nonce (ciphertext ++ tag) aad)
