-- ===== src/Replay/Invariant/Lookup.antt =====
-- Lookups in the entries of a `ReplayGuard`.
use esphome_multicast_pubsub.Prelude.{
  ℕ, suc, ◌≡◌, ◌↔◌, refl, true, false, Option, [], ◌∷◌, ◌++◌, length, length-append, if◌then◌else◌,
  arith,
}
use esphome_multicast_pubsub.Replay.{Entries, contains, remove, insert, nonce_eq}

pub nonce_eq_iff : (a b : Option ℕ) → (nonce_eq a b ≡ true) ↔ (a ≡ b)
nonce_eq_iff a b = ground arith

pub nonce_eq_self : (a : Option ℕ) → nonce_eq a a ≡ true
nonce_eq_self a = (nonce_eq_iff a a).1 refl

-- No nonce twice.
abbrev pub Distinct : Entries → Type 0
Distinct [] = Unit
Distinct ((n, t) ∷ order) = (contains n order ≡ false) × Distinct order

pub contains-remove :
    (n m : Option ℕ) (s : Entries)
    → contains m (remove n s) ≡ (if nonce_eq n m then false else contains m s)
unfolding contains remove
contains-remove n m [] = ground arith
contains-remove n m ((k, t) ∷ s) =
    ground (arith, contains-remove n m s, nonce_eq_iff n m, nonce_eq_iff k m, nonce_eq_iff k n)

pub contains-insert :
    (n m : Option ℕ) (t : ℕ) (s : Entries)
    → contains m (insert n t s) ≡ (if nonce_eq n m then true else contains m s)
unfolding contains insert
contains-insert n m t s = ground (arith, contains-remove n m s)

pub contains-append :
    (m n : Option ℕ) (t : ℕ) (order : Entries)
    → contains m (order ++ (n, t) ∷ []) ≡ (if nonce_eq n m then true else contains m order)
unfolding contains
contains-append m n t [] = ground arith
contains-append m n t ((k, u) ∷ order) = ground (arith, contains-append m n t order)

pub length-snoc :
    (order : Entries) (n : Option ℕ) (t : ℕ) → length (order ++ (n, t) ∷ []) ≡ suc (length order)
length-snoc order n t = omega (arith, length-append order ((n, t) ∷ []))

-- Taking the head off the queue and its nonce out of the dictionary keeps the two in step.
pub contains-pop :
    (n : Option ℕ) (t : ℕ) (order seen : Entries)
    → contains n order ≡ false
    → (m : Option ℕ) → contains m seen ≡ contains m ((n, t) ∷ order)
    → contains m (remove n seen) ≡ contains m order
unfolding contains
contains-pop n t order seen d m s = ground (arith, contains-remove n m seen, nonce_eq_iff n m)
