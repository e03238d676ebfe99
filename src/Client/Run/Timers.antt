-- ===== src/Client/Run/Timers.antt =====
-- The timers of every state that a client reaches: one chain for a topic, and none after `stop`.
use esphome_multicast_pubsub.Prelude.{
  ℕ, ◌≤◌, ◌≡◌, refl, ap, ◌∙◌, true, false, ◌||◌, some, List, [], ◌∷◌, All, arith, Bool-cases, inl,
  inr,
}
use esphome_multicast_pubsub.Client.{Client, Timer, Action, fire, tick, lookup}
use esphome_multicast_pubsub.Client.Publish.{cancel, cancel_all, values, stop}
use esphome_multicast_pubsub.Client.Publish.Chains.{
  is_tick, is_finite, IsListed, HasTrackedTimers, IsDistinct, chains, bytes_eq-eq, All-map₁,
  All-map₂, All-cancel, cancel-gone,
}
use esphome_multicast_pubsub.Client.Publish.Listed.{HasNoTick, other_tick}

lookup-values :
    (topic : List ℕ) (d : List (List ℕ × ℕ)) (h : ℕ)
    → lookup topic d ≡ some h
    → is_finite h (values d) ≡ true
unfolding lookup values
lookup-values topic [] h e = cc
lookup-values topic ((k, v) ∷ d) h e = ground (arith, lookup-values topic d h)

listed-handle :
    (d : List (List ℕ × ℕ)) (f : List ℕ) (h : ℕ) (a : Action)
    → IsListed d f h a
    → is_finite h (values d) || is_finite h f ≡ true
listed-handle d f h (fire _ _) l = ground (arith, l)
listed-handle d f h (tick topic _ _) l = ground (arith, lookup-values topic d h l)

-- Cancelling the first handles leaves timers of the others.
cancel_all-rest :
    (hs others : List ℕ) (ts : List Timer)
    → All (λ t. is_finite t.handle hs || is_finite t.handle others ≡ true) ts
    → All (λ t. is_finite t.handle others ≡ true) (cancel_all hs ts)
unfolding cancel_all
cancel_all-rest [] others ts p = p
cancel_all-rest (h ∷ hs) others ts p = cancel_all-rest hs others (cancel h ts) (
    All-map₂ (λ t q ne. ground (arith, q, ne)) (cancel h ts)
      (All-cancel (λ t. is_finite t.handle (h ∷ hs) || is_finite t.handle others ≡ true) h ts p)
      (cancel-gone h ts))

none_left : (ts : List Timer) → All (λ t. false ≡ true) ts → ts ≡ []
none_left [] p = refl
none_left (t ∷ ts) p = cc

pub stop-timers : (c : Client) → HasTrackedTimers c → (stop c).timers ≡ []
unfolding stop
stop-timers c p =
    let first =
      cancel_all-rest (values c.indefinite) c.finite c.timers
        (All-map₁ (λ t l. listed-handle c.indefinite c.finite t.handle t.action l) c.timers p.0) in
    let ts = cancel_all (values c.indefinite) c.timers in
    none_left (cancel_all c.finite ts)
      (cancel_all-rest c.finite [] ts (All-map₁ (λ t q. ground (arith, q)) ts first))

pub chains-silent : (topic : List ℕ) (ts : List Timer) → HasNoTick topic ts → chains topic ts ≡ 0
unfolding chains
chains-silent topic [] p = refl
chains-silent topic (t ∷ ts) p = rw (p.0, chains) (chains-silent topic ts p.1)

tick-handle :
    (d : List (List ℕ × ℕ)) (f : List ℕ) (topic : List ℕ) (h : ℕ) (a : Action)
    → is_tick topic a ≡ true
    → IsListed d f h a
    → lookup topic d ≡ some h
tick-handle d f topic h (fire _ _) e l = cc
tick-handle d f topic h (tick u _ _) e l = ap (λ k. lookup k d) (bytes_eq-eq topic u e) ∙ l

pub chains-bound :
    (topic : List ℕ) (ts : List Timer) (d : List (List ℕ × ℕ)) (f : List ℕ)
    → All (λ t. IsListed d f t.handle t.action) ts
    → IsDistinct ts
    → chains topic ts ≤ 1
unfolding chains
chains-bound topic [] d f listed distinct = omega arith
chains-bound topic (t ∷ ts) d f listed distinct = elim (Bool-cases (is_tick topic t.action)) [
  | inl on ↦
      let own = tick-handle d f topic t.handle t.action on listed.0 in
      let silent =
        All-map₂ (λ s l ne. other_tick d f topic t.handle s.handle s.action own ne l) ts listed.1
          distinct.0 in
      rw (on, chains) (omega (arith, chains-silent topic ts silent))
  | inr off ↦ rw (off, chains) (chains-bound topic ts d f listed.1 distinct.1)
]
