-- ===== src/Tests/Aead.antt =====
-- The tag of RFC 8439, section 2.8.2, and of the Poly1305 vector in section 2.5.2.
use esphome_multicast_pubsub.Prelude.{ℕ, ◌≡◌, refl, List, [], ◌∷◌, ok}
use esphome_multicast_pubsub.Chacha.{range}
use esphome_multicast_pubsub.Aead.{aead_encrypt_py, aead_decrypt_py}

-- "Ladies and Gentl"
abbrev plain : List ℕ
plain =
    0x4c ∷ 0x61 ∷ 0x64 ∷ 0x69 ∷ 0x65 ∷ 0x73 ∷ 0x20 ∷ 0x61 ∷ 0x6e ∷ 0x64 ∷ 0x20 ∷ 0x47 ∷ 0x65 ∷ 0x6e
    ∷ 0x74 ∷ 0x6c ∷ []

abbrev key : List ℕ
key = range 0x80 32

abbrev nonce : List ℕ
nonce = 7 ∷ 0 ∷ 0 ∷ 0 ∷ range 0x40 8

ciphertext_vector :
    (aead_encrypt_py key nonce plain []).0
    ≡ 0xd3 ∷ 0x1a ∷ 0x8d ∷ 0x34 ∷ 0x64 ∷ 0x8e ∷ 0x60 ∷ 0xdb ∷ 0x7b ∷ 0x86 ∷ 0xaf ∷ 0xbc ∷ 0x53
      ∷ 0xef ∷ 0x7e ∷ 0xc2 ∷ []
unfolding aead_encrypt_py range
ciphertext_vector = refl

opens :
    let (ct, tag) = aead_encrypt_py key nonce plain [] in
    aead_decrypt_py key nonce ct tag [] ≡ ok plain
unfolding aead_encrypt_py aead_decrypt_py range
opens = refl
