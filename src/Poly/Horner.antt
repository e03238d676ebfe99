-- ===== src/Poly/Horner.antt =====
-- `_poly1305` against the polynomial that RFC 8439 defines it by.
use Prim.Native.Nat.{bit_and}
use native.Mathlib.Nat.{
  add-mul-mod_self_left, mod-add-div, mod-add-mod, mod-eq_of_lt, pow-suc, pow-zero, zero-mul,
}
use esphome_multicast_pubsub.Prelude.{
  ℕ, zero, suc, ◌+◌, ◌*◌, ◌/◌, ◌%◌, ◌^◌, ◌<◌, ◌≡◌, refl, sym, ap, ◌∙◌, List, [], ◌∷◌, length, take,
  drop, arith,
}
use esphome_multicast_pubsub.Prelude.Bytes.{to_le, from_le}
use esphome_multicast_pubsub.Bits.{mask}
use esphome_multicast_pubsub.Poly.{
  prime, clamp_mask, tag_mask, block_number, poly1305_loop, poly1305,
}

-- The blocks of a message of `n` blocks, as numbers.
abbrev pub block_numbers : ℕ → List ℕ → List ℕ
block_numbers zero msg = []
block_numbers (suc n) msg = block_number (take 16 msg) ∷ block_numbers n (drop 16 msg)

-- c₁ rᵠ + c₂ rᵠ⁻¹ + … + cᵩ r, over the whole numbers.
abbrev pub polynomial : ℕ → List ℕ → ℕ
polynomial r [] = 0
polynomial r (c ∷ cs) = c * r ^ length (c ∷ cs) + polynomial r cs

mul-mod : (a r p : ℕ) → (a % p * r) % p ≡ (a * r) % p
mul-mod a r p =
    sym (add-mul-mod_self_left (a % p * r) p (a / p * r))
    ∙ ap (λ t. t % p) (omega (arith, ap (λ (t : ℕ). t * r) (mod-add-div a p)))

mul-add-mod : (a r c p : ℕ) → (a % p * r + c) % p ≡ (a * r + c) % p
mul-add-mod a r c p =
    sym (mod-add-mod (a % p * r) p c)
    ∙ ap (λ t. (t + c) % p) (mul-mod a r p)
    ∙ mod-add-mod (a * r) p c

loop-polynomial :
    (r n acc : ℕ) (msg : List ℕ)
    → acc < prime
    → poly1305_loop r n acc msg
      ≡ (acc * r ^ length (block_numbers n msg) + polynomial r (block_numbers n msg)) % prime
unfolding poly1305_loop
loop-polynomial r zero acc msg h =
    sym (mod-eq_of_lt h) ∙ ap (λ t. t % prime) (omega (arith, ap (λ (t : ℕ). acc * t) (pow-zero r)))
loop-polynomial r (suc n) acc msg h =
    let c = block_number (take 16 msg) in
    let cs = block_numbers n (drop 16 msg) in
    loop-polynomial r n ((acc + c) * r % prime) (drop 16 msg) (omega arith)
    ∙ mul-add-mod ((acc + c) * r) (r ^ length cs) (polynomial r cs) prime
    ∙ ap (λ t. t % prime) (omega (arith, ap (λ (t : ℕ). (acc + c) * t) (pow-suc r (length cs))))

-- The tag is the polynomial of the blocks at the clamped key, modulo 2 ^ 130 - 5, plus the second
-- half of the key, modulo 2 ^ 128, as 16 little-endian bytes.
pub poly1305-polynomial :
    (otk msg : List ℕ)
    → poly1305 otk msg
      ≡ to_le 16 (
          (polynomial
                (bit_and (from_le (take 16 otk)) clamp_mask)
                (block_numbers ((length msg + 15) / 16) msg)
              % prime
            + from_le (take 16 (drop 16 otk)))
          % 2 ^ 128)
unfolding poly1305
poly1305-polynomial otk msg =
    let r = bit_and (from_le (take 16 otk)) clamp_mask in
    let n = (length msg + 15) / 16 in
    let s = from_le (take 16 (drop 16 otk)) in
    ap (to_le 16) (
      mask 128 tag_mask (poly1305_loop r n 0 msg + s) refl
      ∙ ap (λ t. (t + s) % 2 ^ 128)
          (loop-polynomial r n 0 msg (omega arith)
            ∙ ap (λ t. t % prime) (omega (arith, zero-mul (r ^ length (block_numbers n msg))))))
