-- ===== src/Poly.antt =====
-- The Poly1305 half of python/mpubsub/wire.py: `_poly1305`, `_pad16`, `_poly1305_key`, `_ct_eq`.
pub mod Horner
pub mod Compare
use Prim.Native.Nat.{bit_and, bit_or, bit_xor}
use esphome_multicast_pubsub.Prelude.{
  ℕ, zero, suc, ◌+◌, ◌-◌, ◌*◌, ◌/◌, ◌%◌, ◌^◌, Bool, false, List, [], ◌∷◌, ◌++◌, length, take, drop,
  replicate, ◌==◌, if◌then◌else◌,
}
use esphome_multicast_pubsub.Prelude.Bytes.{to_le, from_le}
use esphome_multicast_pubsub.Chacha.{chacha_block}

abbrev pub prime : ℕ
prime = 2 ^ 130 - 5

abbrev pub clamp_mask : ℕ
clamp_mask = 0x0FFFFFFC0FFFFFFC0FFFFFFC0FFFFFFF

abbrev pub tag_mask : ℕ
tag_mask = 2 ^ 128 - 1

-- int.from_bytes(blk + b"\x01", "little")
unfoldable pub block_number : List ℕ → ℕ
block_number block = from_le (block ++ 1 ∷ [])

-- The loop over `range(0, len(msg), 16)` with `n` turns left; `rest` is what is still to be read.
unfoldable pub poly1305_loop : ℕ → ℕ → ℕ → List ℕ → ℕ
unfolding block_number
poly1305_loop r zero acc rest = acc
poly1305_loop r (suc n) acc rest =
    poly1305_loop r n ((acc + block_number (take 16 rest)) * r % prime) (drop 16 rest)

unfoldable pub poly1305 : List ℕ → List ℕ → List ℕ
unfolding poly1305_loop
poly1305 otk msg =
    let r = bit_and (from_le (take 16 otk)) clamp_mask in
    let s = from_le (take 16 (drop 16 otk)) in
    let acc = poly1305_loop r ((length msg + 15) / 16) 0 msg in
    to_le 16 (bit_and (acc + s) tag_mask)

unfoldable pub pad16 : List ℕ → List ℕ
pad16 b = replicate ((16 - length b % 16) % 16) 0

unfoldable pub poly1305_key : List ℕ → List ℕ → List ℕ
poly1305_key key nonce = take 32 (chacha_block key 0 nonce)

-- for x, y in zip(a, b): diff |= x ^ y
unfoldable pub diff_loop : ℕ → List ℕ → List ℕ → ℕ
diff_loop diff [] b = diff
diff_loop diff (x ∷ a) [] = diff
diff_loop diff (x ∷ a) (y ∷ b) = diff_loop (bit_or diff (bit_xor x y)) a b

unfoldable pub ct_eq : List ℕ → List ℕ → Bool
unfolding diff_loop
ct_eq a b = if length a == length b then diff_loop 0 a b == 0 else false
