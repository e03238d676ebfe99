-- ===== src/Aead/Pure.antt =====
-- The pure-Python cipher: what it authenticates, and that it keeps the `FastCipher` contract.
use esphome_multicast_pubsub.Prelude.{
  ℕ, ◌+◌, ◌-◌, ◌≡◌, ◌↔◌, refl, sym, ap, ◌∙◌, true, false, Option, none, some, List, ◌++◌, length,
  arith, Result, Error, Bool, ok, raise, wire_error, if◌then◌else◌, length-append, take-append,
  drop-append, take-append-drop,
}
use esphome_multicast_pubsub.Chacha.{chacha20}
use esphome_multicast_pubsub.Chacha.Keystream.{length-chacha20, chacha20-chacha20}
use esphome_multicast_pubsub.Poly.{poly1305, poly1305_key, ct_eq}
use esphome_multicast_pubsub.Poly.Compare.{ct_eq_iff}
use esphome_multicast_pubsub.Aead.{
  mac_data, aead_encrypt_py, aead_decrypt_py, FastCipher, split_tag,
}

pub length-poly1305 : (otk msg : List ℕ) → length (poly1305 otk msg) ≡ 16
unfolding poly1305
length-poly1305 otk msg = refl

module _ (key nonce ciphertext tag aad : List ℕ) where
  abbrev pub expected_tag : List ℕ
  expected_tag = poly1305 (poly1305_key key nonce) (mac_data aad ciphertext)

  -- Decryption succeeds exactly when the tag is the Poly1305 tag of the additional data and the
  -- ciphertext under the key and the nonce, and then gives the decrypted text.
  pub aead_decrypt_py_iff :
      (plaintext : List ℕ)
      → (aead_decrypt_py key nonce ciphertext tag aad ≡ ok plaintext)
        ↔ ((tag ≡ expected_tag) × (plaintext ≡ chacha20 key 1 nonce ciphertext))
  unfolding aead_decrypt_py
  aead_decrypt_py_iff plaintext = (
    λ h. ground (arith, ct_eq_iff expected_tag tag),
    λ p. ground (arith, ct_eq_iff expected_tag tag),
  )

pub decrypt_py-raise :
    (key nonce ciphertext tag aad : List ℕ) {e : Error}
    → aead_decrypt_py key nonce ciphertext tag aad ≡ raise e
    → e ≡ wire_error
unfolding aead_decrypt_py
decrypt_py-raise key nonce ciphertext tag aad h =
    if_raise (ct_eq (expected_tag key nonce ciphertext tag aad) tag) h
  where
    if_raise :
        (b : Bool) {e : Error}
        → (if b then ok (chacha20 key 1 nonce ciphertext) else raise wire_error) ≡ raise e
        → e ≡ wire_error
    if_raise true h = cc
    if_raise false h = cc

module _ (key nonce plaintext aad : List ℕ) where
  pub length-encrypt_py :
      (length (aead_encrypt_py key nonce plaintext aad).0 ≡ length plaintext)
      × (length (aead_encrypt_py key nonce plaintext aad).1 ≡ 16)
  unfolding aead_encrypt_py
  length-encrypt_py = (
    length-chacha20 key nonce 1 plaintext,
    length-poly1305 (poly1305_key key nonce) (mac_data aad (chacha20 key 1 nonce plaintext)),
  )

  -- What the pure cipher encrypts, it decrypts.
  pub decrypt_py-encrypt_py :
      let (ct, tag) = aead_encrypt_py key nonce plaintext aad in
      aead_decrypt_py key nonce ct tag aad ≡ ok plaintext
  unfolding aead_encrypt_py
  decrypt_py-encrypt_py =
      let ct = chacha20 key 1 nonce plaintext in
      (aead_decrypt_py_iff key nonce ct (expected_tag key nonce ct ct aad) aad plaintext).1
        (refl, sym (chacha20-chacha20 key nonce 1 plaintext))

pub length-decrypt_py :
    (key nonce ciphertext tag aad : List ℕ) {plaintext : List ℕ}
    → aead_decrypt_py key nonce ciphertext tag aad ≡ ok plaintext
    → (length tag ≡ 16) × (length ciphertext ≡ length plaintext)
length-decrypt_py key nonce ciphertext tag aad {plaintext} h =
    let (t, p) = (aead_decrypt_py_iff key nonce ciphertext tag aad plaintext).0 h in
    (
      ap length t ∙ length-poly1305 (poly1305_key key nonce) (mac_data aad ciphertext),
      sym (ap length p ∙ length-chacha20 key nonce 1 ciphertext),
    )

-- A ciphertext with its tag behind it splits into the two.
pub split_tag-append : (ct tag : List ℕ) → length tag ≡ 16 → split_tag (ct ++ tag) ≡ (ct, tag)
unfolding split_tag
split_tag-append ct tag h =
    let e : length ct ≡ length (ct ++ tag) - 16 = omega (arith, length-append ct tag) in
    rw (
      take-append (length (ct ++ tag) - 16) ct tag e,
      drop-append (length (ct ++ tag) - 16) ct tag e,
    )

pub append-split_tag : (sealed : List ℕ) → (split_tag sealed).0 ++ (split_tag sealed).1 ≡ sealed
unfolding split_tag
append-split_tag sealed = take-append-drop (length sealed - 16) sealed

-- The pure cipher behind the interface of the `cryptography` package.
abbrev pub to_option : Result (List ℕ) → Option (List ℕ)
to_option (ok p) = some p
to_option (raise e) = none

unfoldable pub sealed_py : List ℕ → List ℕ → List ℕ → List ℕ → List ℕ
sealed_py key nonce plaintext aad =
    let (ct, tag) = aead_encrypt_py key nonce plaintext aad in ct ++ tag

unfoldable pub opened_py : List ℕ → List ℕ → List ℕ → List ℕ → Option (List ℕ)
opened_py key nonce sealed aad =
    let (ct, tag) = split_tag sealed in to_option (aead_decrypt_py key nonce ct tag aad)

pub length-sealed_py :
    (key nonce plaintext aad : List ℕ)
    → length (sealed_py key nonce plaintext aad) ≡ length plaintext + 16
unfolding sealed_py
length-sealed_py key nonce plaintext aad =
    let (ct, tag) = aead_encrypt_py key nonce plaintext aad in
    omega (arith, length-append ct tag, length-encrypt_py key nonce plaintext aad)

pub opened-sealed_py :
    (key nonce plaintext aad : List ℕ)
    → opened_py key nonce (sealed_py key nonce plaintext aad) aad ≡ some plaintext
unfolding opened_py sealed_py
opened-sealed_py key nonce plaintext aad =
    let (ct, tag) = aead_encrypt_py key nonce plaintext aad in
    ap (λ s. to_option (aead_decrypt_py key nonce s.0 s.1 aad))
      (split_tag-append ct tag (length-encrypt_py key nonce plaintext aad).1)
    ∙ ap to_option (decrypt_py-encrypt_py key nonce plaintext aad)

pub length-opened_py :
    (key nonce sealed aad : List ℕ) {plaintext : List ℕ}
    → opened_py key nonce sealed aad ≡ some plaintext
    → length sealed ≡ length plaintext + 16
unfolding opened_py
length-opened_py key nonce sealed aad {plaintext} h =
    let (ct, tag) = split_tag sealed in
    omega (
      arith,
      ap length (append-split_tag sealed),
      length-append ct tag,
      length-decrypt_py key nonce ct tag aad (eq_ok (aead_decrypt_py key nonce ct tag aad) h),
    )
  where
    eq_ok : (r : Result (List ℕ)) → to_option r ≡ some plaintext → r ≡ ok plaintext
    eq_ok (ok p) e = cc
    eq_ok (raise x) e = cc

-- The pure cipher keeps the contract that the code relies on of the `cryptography` package.
abbrev pub pure_cipher : FastCipher
pure_cipher = record {
  encrypt = sealed_py;
  decrypt = opened_py;
  length-encrypt = length-sealed_py;
  decrypt-encrypt = opened-sealed_py;
  length-decrypt = length-opened_py;
}
