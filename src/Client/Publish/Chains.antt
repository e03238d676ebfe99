-- ===== src/Client/Publish/Chains.antt =====
-- The timers of the client against `_indefinite` and `_finite`, the two tables by which they can be
-- cancelled.
use esphome_multicast_pubsub.Prelude.{
  ℕ, suc, ◌<◌, ◌≡◌, refl, ap, ◌∙◌, Bool, true, false, ◌||◌, some, List, [], ◌∷◌, ◌++◌, All,
  All-append, arith, ◌==◌, if◌then◌else◌, Bool-cases, inl, inr,
}
use esphome_multicast_pubsub.Wire.{bytes_eq}
use esphome_multicast_pubsub.Client.{
  Client, Timer, Action, fire, tick, lookup, insert, remove, discard,
}
use esphome_multicast_pubsub.Client.Publish.{cancel, cancel_all}

-- Whether an action continues the chain of this topic.
abbrev pub is_tick : List ℕ → Action → Bool
is_tick topic (fire datagram group) = false
is_tick topic (tick u group datagram) = bytes_eq topic u

-- h in finite
abbrev pub is_finite : ℕ → List ℕ → Bool
is_finite h [] = false
is_finite h (x ∷ xs) = x == h || is_finite h xs

-- A timer that runs this action is in its table.
abbrev pub IsListed : List (List ℕ × ℕ) → List ℕ → ℕ → Action → Type 0
IsListed indefinite finite h (fire datagram group) = is_finite h finite ≡ true
IsListed indefinite finite h (tick topic group datagram) = lookup topic indefinite ≡ some h

-- No two timers have one handle.
abbrev pub IsDistinct : List Timer → Type 0
IsDistinct [] = Unit
IsDistinct (t ∷ ts) = All (λ s. (s.handle == t.handle) ≡ false) ts × IsDistinct ts

-- Every pending timer is in its table, and handles are given out once.
abbrev pub IsTracked : List Timer → List (List ℕ × ℕ) → List ℕ → ℕ → Type 0
IsTracked timers indefinite finite next_handle =
    All (λ t. IsListed indefinite finite t.handle t.action) timers
    × All (λ t. t.handle < next_handle) timers
    × IsDistinct timers

abbrev pub HasTrackedTimers : Client → Type 0
HasTrackedTimers c = IsTracked c.timers c.indefinite c.finite c.next_handle

-- How many pending timers continue the chain of a topic.
unfoldable pub chains : List ℕ → List Timer → ℕ
chains topic [] = 0
chains topic (t ∷ ts) = if is_tick topic t.action then suc (chains topic ts) else chains topic ts

pub bytes_eq_refl : (a : List ℕ) → bytes_eq a a ≡ true
unfolding bytes_eq
bytes_eq_refl [] = refl
bytes_eq_refl (x ∷ a) = ground (arith, bytes_eq_refl a)

pub bytes_eq-eq : (a b : List ℕ) → bytes_eq a b ≡ true → a ≡ b
unfolding bytes_eq
bytes_eq-eq [] [] e = refl
bytes_eq-eq [] (y ∷ b) e = cc
bytes_eq-eq (x ∷ a) [] e = cc
bytes_eq-eq (x ∷ a) (y ∷ b) e = ground (arith, bytes_eq-eq a b)

module _ {ℓ} {A : Type ℓ} where
  pub All-map₂ {κ μ ν} :
      {P : A → Type κ} {Q : A → Type μ} {R : A → Type ν}
      → ((a : A) → P a → Q a → R a)
      → (xs : List A) → All P xs
      → All Q xs
      → All R xs
  All-map₂ f [] p q = tt
  All-map₂ f (x ∷ xs) p q = (f x p.0 q.0, All-map₂ f xs p.1 q.1)

  pub All-map₁ {κ μ} :
      {P : A → Type κ} {Q : A → Type μ}
      → ((a : A) → P a → Q a)
      → (xs : List A) → All P xs
      → All Q xs
  All-map₁ f [] p = tt
  All-map₁ f (x ∷ xs) p = (f x p.0, All-map₁ f xs p.1)

module _ {ℓ} {V : Type ℓ} where
  pub lookup-remove :
      (k u : List ℕ) (d : List (List ℕ × V))
      → bytes_eq k u ≡ false
      → lookup u (remove k d) ≡ lookup u d
  unfolding lookup remove
  lookup-remove k u [] h = refl
  lookup-remove k u ((j, v) ∷ d) h =
      let rest = lookup-remove k u d h in
      elim (Bool-cases (bytes_eq j k)) [
        | inl e ↦ rw e (rw (ap (λ x. bytes_eq x u) (bytes_eq-eq j k e) ∙ h) rest)
        | inr e ↦ rw e (rw rest)
      ]

  pub lookup-insert_other :
      (k u : List ℕ) (v : V) (d : List (List ℕ × V))
      → bytes_eq k u ≡ false
      → lookup u (insert k v d) ≡ lookup u d
  unfolding lookup insert
  lookup-insert_other k u v d h = rw h (lookup-remove k u d h)

  pub lookup-insert :
      (k : List ℕ) (v : V) (d : List (List ℕ × V)) → lookup k (insert k v d) ≡ some v
  unfolding lookup insert
  lookup-insert k v d = rw (bytes_eq_refl k)

pub is_finite-discard :
    (h x : ℕ) (xs : List ℕ) → (x == h) ≡ false → is_finite x (discard h xs) ≡ is_finite x xs
unfolding discard
is_finite-discard h x [] ne = refl
is_finite-discard h x (y ∷ ys) ne = ground (arith, is_finite-discard h x ys ne)

module _ {κ} (P : Timer → Type κ) where
  pub All-cancel : (h : ℕ) (ts : List Timer) → All P ts → All P (cancel h ts)
  unfolding cancel
  All-cancel h [] p = tt
  All-cancel h (t ∷ ts) p =
      let rest = All-cancel h ts p.1 in
      elim (Bool-cases (t.handle == h)) [ inl e ↦ rw e rest | inr e ↦ rw e (p.0, rest) ]

  pub All-cancel_all : (hs : List ℕ) (ts : List Timer) → All P ts → All P (cancel_all hs ts)
  unfolding cancel_all
  All-cancel_all [] ts p = p
  All-cancel_all (h ∷ hs) ts p = All-cancel_all hs (cancel h ts) (All-cancel h ts p)

pub cancel-gone : (h : ℕ) (ts : List Timer) → All (λ t. (t.handle == h) ≡ false) (cancel h ts)
unfolding cancel
cancel-gone h [] = tt
cancel-gone h (t ∷ ts) =
    let rest = cancel-gone h ts in
    elim (Bool-cases (t.handle == h)) [ inl e ↦ rw e rest | inr e ↦ rw e (e, rest) ]

pub cancel-IsDistinct : (h : ℕ) (ts : List Timer) → IsDistinct ts → IsDistinct (cancel h ts)
unfolding cancel
cancel-IsDistinct h [] p = tt
cancel-IsDistinct h (t ∷ ts) p =
    let rest = cancel-IsDistinct h ts p.1 in
    elim (Bool-cases (t.handle == h)) [
      | inl e ↦ rw e rest
      | inr e ↦ rw e (All-cancel (λ s. (s.handle == t.handle) ≡ false) h ts p.0, rest)
    ]

pub append-IsDistinct :
    (ts : List Timer) (t : Timer)
    → IsDistinct ts
    → All (λ s. s.handle < t.handle) ts
    → IsDistinct (ts ++ t ∷ [])
append-IsDistinct [] t p q = (tt, tt)
append-IsDistinct (s ∷ ts) t p q = (
  All-append (λ u. (u.handle == s.handle) ≡ false) ts (t ∷ []) p.0 (ground arith, tt),
  append-IsDistinct ts t p.1 q.1,
)
