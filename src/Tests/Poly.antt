-- ===== src/Tests/Poly.antt =====
-- The vector of RFC 8439, section 2.5.2: "Cryptographic Forum Research Group".
use esphome_multicast_pubsub.Prelude.{ℕ, ◌≡◌, refl, List, [], ◌∷◌, ◌++◌}
use esphome_multicast_pubsub.Prelude.Bytes.{to_le}
use esphome_multicast_pubsub.Poly.{poly1305}

abbrev otk : List ℕ
otk = to_le 16 0xa806d542fe52447f336d555778bed685 ++ to_le 16 0x1bf54941aff6bf4afdb20dfb8a800301

abbrev msg : List ℕ
msg =
    to_le 16 0x6f4620636968706172676f7470797243
    ++ (to_le 16 0x6f7247206863726165736552206d7572 ++ (0x75 ∷ 0x70 ∷ []))

poly1305_vector : poly1305 otk msg ≡ to_le 16 0xa927010caf8b2bc2c6365130c11d06a8
unfolding poly1305
poly1305_vector = refl
