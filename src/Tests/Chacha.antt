-- ===== src/Tests/Chacha.antt =====
-- The vectors of RFC 8439, sections 2.1.1 and 2.3.2.
use esphome_multicast_pubsub.Prelude.{◌≡◌, refl, [], ◌∷◌, take}
use esphome_multicast_pubsub.Chacha.{chacha_qr, chacha_block, range}

quarter_round_vector :
    chacha_qr (0x11111111 ∷ 0x01020304 ∷ 0x9b8d6f43 ∷ 0x01234567 ∷ []) 0 1 2 3
    ≡ 0xea2a92f4 ∷ 0xcb1cf8ce ∷ 0x4581472e ∷ 0x5881c4bb ∷ []
unfolding chacha_qr
quarter_round_vector = refl

block_vector :
    take 8 (chacha_block (range 0 32) 1 (0 ∷ 0 ∷ 0 ∷ 9 ∷ 0 ∷ 0 ∷ 0 ∷ 0x4a ∷ 0 ∷ 0 ∷ 0 ∷ 0 ∷ []))
    ≡ 0x10 ∷ 0xf1 ∷ 0xe7 ∷ 0xe4 ∷ 0xd1 ∷ 0x3b ∷ 0x59 ∷ 0x15 ∷ []
unfolding chacha_block
block_vector = refl
