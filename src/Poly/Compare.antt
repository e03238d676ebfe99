-- ===== src/Poly/Compare.antt =====
-- `_ct_eq` is equality.
use Prim.Native.Nat.{bit_or, bit_xor}
use esphome_multicast_pubsub.Prelude.{
  ℕ, ◌+◌, ◌≡◌, ◌↔◌, refl, ap₂, true, List, [], ◌∷◌, length, arith,
}
use esphome_multicast_pubsub.Bits.{eq_of_bit_xor-zero, zero_of_bit_or-zero, bit_xor_self}
use esphome_multicast_pubsub.Poly.{diff_loop, ct_eq}

diff_loop-zero :
    (d : ℕ) (a b : List ℕ) → length a ≡ length b → diff_loop d a b ≡ 0 → (d ≡ 0) × (a ≡ b)
unfolding diff_loop
diff_loop-zero d [] [] e h = (h, refl)
diff_loop-zero d [] (y ∷ b) e h = absurd (omega arith)
diff_loop-zero d (x ∷ a) [] e h = absurd (omega arith)
diff_loop-zero d (x ∷ a) (y ∷ b) e h =
    let (z, same) = diff_loop-zero (bit_or d (bit_xor x y)) a b (omega arith) h in
    let both : d + bit_xor x y ≡ 0 = zero_of_bit_or-zero d (bit_xor x y) z in
    (omega arith, ap₂ ◌∷◌ (eq_of_bit_xor-zero x y (omega arith)) same)

diff_loop_self : (a : List ℕ) → diff_loop 0 a a ≡ 0
unfolding diff_loop
diff_loop_self [] = refl
diff_loop_self (x ∷ a) = rw bit_xor_self (diff_loop_self a)

-- The comparison that reads every byte decides equality.
pub ct_eq_iff : (a b : List ℕ) → (ct_eq a b ≡ true) ↔ (a ≡ b)
unfolding ct_eq
ct_eq_iff a b = (
  λ h. (diff_loop-zero 0 a b (ground arith) (ground arith)).1,
  λ e. rw e (ground (arith, diff_loop_self b)),
)
