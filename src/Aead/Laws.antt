-- ===== src/Aead/Laws.antt =====
-- `aead_encrypt` and `aead_decrypt` on either path: what the framing relies on.
use esphome_multicast_pubsub.Prelude.{
  ℕ, ◌+◌, ◌-◌, ◌≡◌, Option, none, some, List, ◌++◌, length, arith, Error, ok, raise, wire_error,
  length-append, length-take, length-drop,
}
use esphome_multicast_pubsub.Aead.{
  aead_encrypt, aead_decrypt, or_invalid_tag, FastCipher, split_tag,
}
use esphome_multicast_pubsub.Aead.Pure.{
  length-encrypt_py, decrypt_py-encrypt_py, length-decrypt_py, decrypt_py-raise, append-split_tag,
}

length-split_tag :
    (sealed : List ℕ) (n : ℕ)
    → length sealed ≡ n + 16
    → (length (split_tag sealed).0 ≡ n) × (length (split_tag sealed).1 ≡ 16)
unfolding split_tag
length-split_tag sealed n h = (
  omega (arith, length-take (length sealed - 16) sealed),
  omega (arith, length-drop (length sealed - 16) sealed),
)

or_invalid_tag-ok : (o : Option (List ℕ)) {p : List ℕ} → or_invalid_tag o ≡ ok p → o ≡ some p
or_invalid_tag-ok none h = cc
or_invalid_tag-ok (some p) h = cc

or_invalid_tag-raise :
    (o : Option (List ℕ)) {e : Error} → or_invalid_tag o ≡ raise e → e ≡ wire_error
or_invalid_tag-raise none h = cc
or_invalid_tag-raise (some p) h = cc

-- On both paths the ciphertext is as long as the plaintext and the tag is 16 bytes.
pub length-aead_encrypt :
    (fast : Option FastCipher) (key nonce plaintext aad : List ℕ)
    → (length (aead_encrypt fast key nonce plaintext aad).0 ≡ length plaintext)
      × (length (aead_encrypt fast key nonce plaintext aad).1 ≡ 16)
unfolding aead_encrypt
length-aead_encrypt none key nonce plaintext aad = length-encrypt_py key nonce plaintext aad
length-aead_encrypt (some fast) key nonce plaintext aad =
    length-split_tag (fast.encrypt key nonce plaintext aad) (length plaintext)
      (fast.length-encrypt key nonce plaintext aad)

-- On both paths what is encrypted is decrypted, with the same additional data.
pub aead_decrypt-aead_encrypt :
    (fast : Option FastCipher) (key nonce plaintext aad : List ℕ)
    → let (ct, tag) = aead_encrypt fast key nonce plaintext aad in
      aead_decrypt fast key nonce ct tag aad ≡ ok plaintext
unfolding aead_encrypt aead_decrypt
aead_decrypt-aead_encrypt none key nonce plaintext aad =
    decrypt_py-encrypt_py key nonce plaintext aad
aead_decrypt-aead_encrypt (some fast) key nonce plaintext aad =
    rw (append-split_tag, fast.decrypt-encrypt)

-- On both paths a successful decryption gives as many bytes as the ciphertext has.
pub length-aead_decrypt :
    (fast : Option FastCipher) (key nonce ciphertext tag aad : List ℕ) {plaintext : List ℕ}
    → length tag ≡ 16
    → aead_decrypt fast key nonce ciphertext tag aad ≡ ok plaintext
    → length ciphertext ≡ length plaintext
unfolding aead_decrypt
length-aead_decrypt none key nonce ciphertext tag aad t h =
    (length-decrypt_py key nonce ciphertext tag aad h).1
length-aead_decrypt (some fast) key nonce ciphertext tag aad t h =
    let opened =
      fast.length-decrypt key nonce (ciphertext ++ tag) aad
        (or_invalid_tag-ok (fast.decrypt key nonce (ciphertext ++ tag) aad) h) in
    omega (arith, opened, length-append ciphertext tag)

-- The only exception of `aead_decrypt` is the `WireError`.
pub aead_decrypt-raise :
    (fast : Option FastCipher) (key nonce ciphertext tag aad : List ℕ) {e : Error}
    → aead_decrypt fast key nonce ciphertext tag aad ≡ raise e
    → e ≡ wire_error
unfolding aead_decrypt
aead_decrypt-raise none key nonce ciphertext tag aad h =
    decrypt_py-raise key nonce ciphertext tag aad h
aead_decrypt-raise (some fast) key nonce ciphertext tag aad h =
    or_invalid_tag-raise (fast.decrypt key nonce (ciphertext ++ tag) aad) h
