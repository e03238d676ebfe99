-- ===== src/Schema/Canonical/Decimal.antt =====
-- The fuel of `decimal` is enough: a numeral is read back as its number.
use esphome_multicast_pubsub.Prelude.{
  ℕ, zero, suc, ◌+◌, ◌-◌, ◌*◌, ◌/◌, ◌%◌, ◌<◌, ◌≡◌, refl, sym, ap, ◌∙◌, Bool, true, false, List, [],
  ◌∷◌, ◌++◌, arith, ltb, digits, decimal, Bool-cases, inl, inr,
}

-- The number of a numeral, after what has been read.
abbrev pub value_from : ℕ → List ℕ → ℕ
value_from n [] = n
value_from n (c ∷ text) = value_from (n * 10 + (c - b'0')) text

value_from-append : (n : ℕ) (s t : List ℕ) → value_from n (s ++ t) ≡ value_from (value_from n s) t
value_from-append n [] t = refl
value_from-append n (c ∷ s) t = value_from-append (n * 10 + (c - b'0')) s t

at_true :
    (b : Bool) (x y : List ℕ)
    → b ≡ true
    → (let r : List ℕ = elim b [ true ↦ x | false ↦ y ] in r) ≡ x
at_true true x y e = refl
at_true false x y e = cc

at_false :
    (b : Bool) (x y : List ℕ)
    → b ≡ false
    → (let r : List ℕ = elim b [ true ↦ x | false ↦ y ] in r) ≡ y
at_false true x y e = cc
at_false false x y e = refl

value_from-digits : (fuel n : ℕ) → n < fuel → value_from 0 (digits fuel n) ≡ n
unfolding digits
value_from-digits zero n h = absurd (omega arith)
value_from-digits (suc fuel) n h = elim (Bool-cases (ltb n 10)) [
  | inl small ↦ ap (value_from 0) (at_true (ltb n 10) ((n + b'0') ∷ []) _ small) ∙ omega arith
  | inr large ↦
      let below : n / 10 < fuel = ground (arith, large) in
      let rest = value_from-digits fuel (n / 10) below in
      ap (value_from 0) (at_false (ltb n 10) _ (digits fuel (n / 10) ++ (n % 10 + b'0') ∷ []) large)
      ∙ value_from-append 0 (digits fuel (n / 10)) ((n % 10 + b'0') ∷ [])
      ∙ ap (λ m. m * 10 + (n % 10 + b'0' - b'0')) rest
      ∙ omega arith
]

-- A number is read back from its numeral.
pub value_from-decimal : (n : ℕ) → value_from 0 (decimal n) ≡ n
unfolding decimal
value_from-decimal n = value_from-digits (suc n) n (omega arith)

-- Numbers with one numeral are equal.
pub decimal_injective : (m n : ℕ) → decimal m ≡ decimal n → m ≡ n
decimal_injective m n same =
    sym (value_from-decimal m) ∙ ap (value_from 0) same ∙ value_from-decimal n
