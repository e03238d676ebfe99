-- ===== src/Bits/Step.antt =====
-- One equation for the lowest digit of `&`, `|` and `^`, from the digit recursion with fuel that
-- the native operations mean.
use Prim.Native.Nat.{
  min, max, digits, bitwise, differ, bit_and, bit_or, bit_xor, bit_and-bitwise, bit_or-bitwise,
  bit_xor-bitwise,
}
use esphome_multicast_pubsub.Prelude.{ℕ, zero, suc, ◌+◌, ◌*◌, ◌/◌, ◌%◌, ◌≤◌, ◌<◌, ◌≡◌, refl, arith}

module _ (z : ℕ → ℕ) (f : ℕ → ℕ → ℕ) where
  -- Any two amounts of fuel that reach the first number give the same result.
  any_fuel : (a b n m : ℕ) → a ≤ n → a ≤ m → digits z f n a b ≡ digits z f m a b
  any_fuel zero b zero zero _ _ = refl
  any_fuel zero b zero (suc m) _ _ = refl
  any_fuel zero b (suc n) zero _ _ = refl
  any_fuel zero b (suc n) (suc m) _ _ = refl
  any_fuel (suc a) b zero m h _ = absurd (omega arith)
  any_fuel (suc a) b (suc n) zero _ h = absurd (omega arith)
  any_fuel (suc a) b (suc n) (suc m) h k =
      rw (any_fuel (suc a / 2) (b / 2) n m (omega arith) (omega arith))

  bitwise_step :
      (h b : ℕ)
      → let a = suc h in bitwise z f a b ≡ 2 * bitwise z f (a / 2) (b / 2) + f (a % 2) (b % 2)
  bitwise_step h b =
      omega (arith, any_fuel (suc h / 2) (b / 2) h (suc h / 2) (omega arith) (omega arith))

differ_digit : (x y : ℕ) → x < 2 → y < 2 → differ x y ≡ (x + y) % 2
differ_digit zero y p q = omega arith
differ_digit (suc zero) zero p q = refl
differ_digit (suc zero) (suc zero) p q = refl
differ_digit (suc zero) (suc (suc y)) p q = absurd (omega arith)
differ_digit (suc (suc x)) y p q = absurd (omega arith)

pub bit_and_step : (a b : ℕ) → bit_and a b ≡ 2 * bit_and (a / 2) (b / 2) + min (a % 2) (b % 2)
bit_and_step zero b = simp bit_and-bitwise (omega arith)
bit_and_step (suc a) b = omega (
  arith,
  bit_and-bitwise (suc a) b,
  bit_and-bitwise (suc a / 2) (b / 2),
  bitwise_step (λ y. 0) min a b,
)

pub bit_or_step : (a b : ℕ) → bit_or a b ≡ 2 * bit_or (a / 2) (b / 2) + max (a % 2) (b % 2)
bit_or_step zero b = simp bit_or-bitwise (omega arith)
bit_or_step (suc a) b = omega (
  arith,
  bit_or-bitwise (suc a) b,
  bit_or-bitwise (suc a / 2) (b / 2),
  bitwise_step (λ y. y) max a b,
)

-- The digit of `^` is the sum of the two digits without its carry.
pub bit_xor_step : (a b : ℕ) → bit_xor a b ≡ 2 * bit_xor (a / 2) (b / 2) + (a % 2 + b % 2) % 2
bit_xor_step zero b = simp bit_xor-bitwise (omega arith)
bit_xor_step (suc a) b = omega (
  arith,
  bit_xor-bitwise (suc a) b,
  bit_xor-bitwise (suc a / 2) (b / 2),
  bitwise_step (λ y. y) differ a b,
  differ_digit (suc a % 2) (b % 2) (omega arith) (omega arith),
)
