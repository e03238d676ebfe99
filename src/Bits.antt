-- ===== src/Bits.antt =====
-- Python's `&`, `|`, `^` on non-negative integers, as arithmetic. Each law goes from the halves of
-- its numbers to the numbers, by the equation for the lowest digit.
mod Step
use Step.{bit_and_step, bit_or_step, bit_xor_step}
use Prim.Native.Nat.{bit_and, bit_or, bit_xor}
use native.Mathlib.Nat.{pow-suc, div-add-mod', mod-lt}
use esphome_multicast_pubsub.Prelude.{
  ℕ, zero, suc, ◌+◌, ◌-◌, ◌*◌, ◌/◌, ◌%◌, ◌^◌, ◌≤◌, ◌<◌, ◌≡◌, refl, sym, ap, ◌∙◌, arith,
}

-- A product with a power of two, by its half.
double : (k q : ℕ) → q * 2 ^ suc k ≡ 2 * (q * 2 ^ k)
double k q = omega (arith, ap (λ (t : ℕ). q * t) (pow-suc 2 k))

and_zero_below : (bound a : ℕ) → a < bound → bit_and a 0 ≡ 0
and_zero_below zero a below = absurd (omega arith)
and_zero_below (suc bound) zero below = refl
and_zero_below (suc bound) (suc h) below =
    let a = suc h in omega (arith, and_zero_below bound (a / 2) (omega arith), bit_and_step a 0)

mask_fields : (k m q r : ℕ) → m + 1 ≡ 2 ^ k → r < 2 ^ k → bit_and (q * 2 ^ k + r) m ≡ r
mask_fields zero zero q zero h p = and_zero_below (suc (q * 1 + 0)) (q * 1 + 0) (omega arith)
mask_fields zero zero q (suc r) h p = absurd (omega arith)
mask_fields zero (suc m) q r h p = absurd (omega arith)
mask_fields (suc k) m q r h p = ground (
  arith,
  pow-suc 2 k,
  double k q,
  bit_and_step (q * 2 ^ suc k + r) m,
  mask_fields k (m / 2) q (r / 2) (omega (arith, pow-suc 2 k)) (omega (arith, pow-suc 2 k)),
)

-- `&` with a mask of `k` ones is the remainder by `2 ^ k`.
pub mask : (k m a : ℕ) → m + 1 ≡ 2 ^ k → bit_and a m ≡ a % 2 ^ k
mask k m a h =
    ap (λ t. bit_and t m) (sym (div-add-mod' a (2 ^ k)))
    ∙ mask_fields k m (a / 2 ^ k) (a % 2 ^ k) h (mod-lt a (omega arith))

bounded_xor_cancel : (n a b : ℕ) → a ≤ n → b ≤ n → bit_xor (bit_xor a b) b ≡ a
bounded_xor_cancel zero zero zero p q = refl
bounded_xor_cancel zero (suc a) b p q = absurd (omega arith)
bounded_xor_cancel zero zero (suc b) p q = absurd (omega arith)
bounded_xor_cancel (suc n) a b p q = omega (
  arith,
  bit_xor_step a b,
  bit_xor_step (bit_xor a b) b,
  ap (λ (t : ℕ). bit_xor t (b / 2)) (halved a b),
  bounded_xor_cancel n (a / 2) (b / 2) (omega arith) (omega arith),
)
  where
    halved : (a b : ℕ) → bit_xor a b / 2 ≡ bit_xor (a / 2) (b / 2)
    halved a b = omega (arith, bit_xor_step a b)

-- What `^` with a number does, `^` with it undoes.
pub xor_cancel : (a b : ℕ) → bit_xor (bit_xor a b) b ≡ a
xor_cancel a b = bounded_xor_cancel (a + b) a b (omega arith) (omega arith)

-- `^` does not leave a width.
pub bit_xor-lt : (k a b : ℕ) → a < 2 ^ k → b < 2 ^ k → bit_xor a b < 2 ^ k
bit_xor-lt zero zero zero p q = p
bit_xor-lt zero (suc a) b p q = absurd (omega arith)
bit_xor-lt zero zero (suc b) p q = absurd (omega arith)
bit_xor-lt (suc k) a b p q = omega (
  arith,
  pow-suc 2 k,
  bit_xor_step a b,
  bit_xor-lt k (a / 2) (b / 2) (omega (arith, pow-suc 2 k)) (omega (arith, pow-suc 2 k)),
)

bounded_xor_zero : (n a b : ℕ) → a ≤ n → b ≤ n → bit_xor a b ≡ 0 → a ≡ b
bounded_xor_zero zero a b p q h = omega arith
bounded_xor_zero (suc n) a b p q h = omega (
  arith,
  bit_xor_step a b,
  bounded_xor_zero n (a / 2) (b / 2) (omega arith) (omega arith) (omega (arith, bit_xor_step a b)),
)

-- `^` is 0 of equal numbers only.
pub eq_of_bit_xor-zero : (a b : ℕ) → bit_xor a b ≡ 0 → a ≡ b
eq_of_bit_xor-zero a b = bounded_xor_zero (a + b) a b (omega arith) (omega arith)

bounded_xor_self : (n a : ℕ) → a ≤ n → bit_xor a a ≡ 0
bounded_xor_self zero zero p = refl
bounded_xor_self zero (suc a) p = absurd (omega arith)
bounded_xor_self (suc n) a p =
    omega (arith, bit_xor_step a a, bounded_xor_self n (a / 2) (omega arith))

pub bit_xor_self : (a : ℕ) → bit_xor a a ≡ 0
bit_xor_self a = bounded_xor_self a a (omega arith)

bounded_or_zero : (n a b : ℕ) → a ≤ n → b ≤ n → bit_or a b ≡ 0 → a + b ≡ 0
bounded_or_zero zero a b p q h = omega arith
bounded_or_zero (suc n) a b p q h = omega (
  arith,
  bit_or_step a b,
  bounded_or_zero n (a / 2) (b / 2) (omega arith) (omega arith) (omega (arith, bit_or_step a b)),
)

-- `|` is 0 only of two zeros.
pub zero_of_bit_or-zero : (a b : ℕ) → bit_or a b ≡ 0 → a + b ≡ 0
zero_of_bit_or-zero a b = bounded_or_zero (a + b) a b (omega arith) (omega arith)

or_zero_below : (bound a : ℕ) → a < bound → bit_or a 0 ≡ a
or_zero_below zero a below = absurd (omega arith)
or_zero_below (suc bound) zero below = refl
or_zero_below (suc bound) (suc h) below =
    let a = suc h in omega (arith, or_zero_below bound (a / 2) (omega arith), bit_or_step a 0)

-- `|` of disjoint fields is their sum.
pub or_fields : (k q r : ℕ) → r < 2 ^ k → bit_or (q * 2 ^ k) r ≡ q * 2 ^ k + r
or_fields zero q zero h = omega (arith, or_zero_below (suc (q * 1)) (q * 1) (omega arith))
or_fields zero q (suc r) h = absurd (omega arith)
or_fields (suc k) q r h = ground (
  arith,
  double k q,
  bit_or_step (q * 2 ^ suc k) r,
  or_fields k q (r / 2) (omega (arith, pow-suc 2 k)),
)
