-- ===== src/Chacha/Round.antt =====
-- The arithmetic of the ChaCha20 rounds: `_rotl32` rotates a word, and the steps of `_chacha_qr`
-- stay within words.
use native.Mathlib.Nat.{
  div-add-mod', mod-lt, mul-add-div_right, div-eq_of_lt, mul-le-mul_right, pow-suc, pow-zero,
  zero-add, suc-add, one-le-pow, div-lt_iff_lt-mul,
}
use esphome_multicast_pubsub.Prelude.{
  ℕ, zero, suc, ◌+◌, ◌-◌, ◌*◌, ◌/◌, ◌%◌, ◌^◌, ◌≤◌, ◌<◌, ◌≡◌, refl, sym, ap, ◌∙◌, arith,
}
use esphome_multicast_pubsub.Bits.{mask, or_fields}
use esphome_multicast_pubsub.Chacha.{word_mask, rotl32}

abbrev pub IsWord : ℕ → Type 0
IsWord x = x < 2 ^ 32

pow-add : (a n m : ℕ) → a ^ n * a ^ m ≡ a ^ (n + m)
pow-add a zero m = rw zero-add (omega (arith, ap (λ (t : ℕ). t * a ^ m) (pow-zero a)))
pow-add a (suc n) m = rw suc-add (
    omega (
      arith,
      pow-suc a n,
      pow-suc a (n + m),
      ap (λ (t : ℕ). t * a) (pow-add a n m),
      ap (λ (t : ℕ). t * a ^ m) (pow-suc a n),
    ))

-- A word made of `n` high bits and `m` low bits comes out with the two fields swapped.
rotl32_fields :
    (n m h l : ℕ) → n + m ≡ 32 → h < 2 ^ n → l < 2 ^ m → rotl32 (h * 2 ^ m + l) n ≡ l * 2 ^ n + h
unfolding rotl32
rotl32_fields n m h l e p q =
    let x = h * 2 ^ m + l in
    let shift : 32 - n ≡ m = omega arith in
    let high : x / 2 ^ (32 - n) ≡ h =
      rw shift (mul-add-div_right (omega arith) h l ∙ omega (arith, div-eq_of_lt q)) in
    let width : 2 ^ n * 2 ^ m ≡ 2 ^ 32 = pow-add 2 n m ∙ ap (λ k. 2 ^ k) e in
    rw (high, or_fields n x h p, mask 32 word_mask (x * 2 ^ n + h) refl)
      (omega (arith, ap (λ (t : ℕ). h * t) width, width, mul-le-mul_right (2 ^ n) q))

-- Rotating a word by `n` and then by `32 - n` gives it back, for every `n` up to 32.
rotl32-rotl32 : (x n : ℕ) → IsWord x → n ≤ 32 → rotl32 (rotl32 x n) (32 - n) ≡ x
rotl32-rotl32 x n w b =
    let m = 32 - n in
    let whole : n + m ≡ 32 = omega arith in
    let h = x / 2 ^ m in
    let l = x % 2 ^ m in
    let back : h * 2 ^ m + l ≡ x = div-add-mod' x (2 ^ m) in
    let width : 2 ^ n * 2 ^ m ≡ 2 ^ 32 = pow-add 2 n m ∙ ap (λ k. 2 ^ k) whole in
    let pos : 0 < 2 ^ m = one-le-pow m 2 (omega arith) in
    let low : l < 2 ^ m = mod-lt x pos in
    let high : h < 2 ^ n = (div-lt_iff_lt-mul {x = x} pos).1 (rw width w) in
    ap (λ t. rotl32 (rotl32 t n) m) (sym back)
    ∙ ap (λ t. rotl32 t m) (rotl32_fields n m h l (omega arith) high low)
    ∙ rotl32_fields m n l h (omega arith) low high
    ∙ back
