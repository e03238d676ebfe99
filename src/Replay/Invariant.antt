-- ===== src/Replay/Invariant.antt =====
-- The queue and the dictionary of a `ReplayGuard` hold the same nonces, each once, and no more than
-- `max_entries` of them.
mod Lookup
pub use Lookup.{Distinct, nonce_eq_iff, length-snoc}
use Lookup.{contains-append, contains-insert, contains-pop}
use esphome_multicast_pubsub.Prelude.{
  ℕ, zero, suc, ◌+◌, ◌-◌, ◌≤◌, ◌<◌, ◌≡◌, refl, sym, ap, ◌∙◌, Bool, true, false, ◌||◌, Option, none,
  some, List, [], ◌∷◌, ◌++◌, length, ltb, leb, ◌==◌, if◌then◌else◌, arith, Bool-cases, inl, inr,
  ◌⊎◌, ◌&&◌,
}
use esphome_multicast_pubsub.Replay.{
  ReplayGuard, Entries, init, contains, remove, insert, prune_loop, prune, evict, record_fresh,
  accept, nonce_eq, distance,
}

pub record IsConsistent (g : ReplayGuard) : Type 0 where
  pub bounded : length g.order ≤ g.max_entries
  pub distinct : Distinct g.order
  pub same : (n : Option ℕ) → contains n g.seen ≡ contains n g.order

-- What the loop of `_prune` keeps.
record Pruned (order : Entries) (result : Entries × Entries) : Type 0 where
  shorter : length result.0 ≤ length order
  distinct : Distinct result.0
  same : (n : Option ℕ) → contains n result.1 ≡ contains n result.0

prune_loop-Pruned :
    (cutoff : ℕ) (order seen : Entries)
    → Distinct order
    → ((n : Option ℕ) → contains n seen ≡ contains n order)
    → Pruned order (prune_loop cutoff order seen)
unfolding prune_loop
prune_loop-Pruned cutoff [] seen d s = record { shorter = omega arith; distinct = tt; same = s }
prune_loop-Pruned cutoff ((n, t) ∷ order) seen d s = elim (Bool-cases (ltb t cutoff)) [
  | inl stale ↦
      let ih =
        prune_loop-Pruned cutoff order (remove n seen) d.1
          (λ m. contains-pop n t order seen d.0 m (s m)) in
      rw stale (record { shorter = omega arith; distinct = ih.distinct; same = ih.same })
  | inr fresh ↦ rw fresh (record { shorter = omega arith; distinct = d; same = s })
]

pub prune-IsConsistent : (g : ReplayGuard) (now : ℕ) → IsConsistent g → IsConsistent (prune g now)
unfolding prune
prune-IsConsistent g now c =
    let p = prune_loop-Pruned (now - g.window) g.order g.seen c.distinct c.same in
    let shorter = p.shorter in
    let small = c.bounded in record { bounded = omega arith; distinct = p.distinct; same = p.same }

Distinct-snoc :
    (order : Entries) (n : Option ℕ) (t : ℕ)
    → Distinct order
    → contains n order ≡ false
    → Distinct (order ++ (n, t) ∷ [])
unfolding contains
Distinct-snoc [] n t d h = (refl, tt)
Distinct-snoc ((m, u) ∷ order) n t d h = (
  ground (arith, contains-append m n t order, nonce_eq_iff m n, nonce_eq_iff n m, d.0),
  Distinct-snoc order n t d.1 (ground arith),
)

-- What the eviction keeps.
record Evicted (max_entries : ℕ) (result : Entries × Entries) : Type 0 where
  bounded : length result.0 ≤ max_entries
  distinct : Distinct result.0
  same : (n : Option ℕ) → contains n result.1 ≡ contains n result.0

evict-Evicted :
    (max_entries : ℕ) (order seen : Entries)
    → length order ≤ suc max_entries
    → Distinct order
    → ((n : Option ℕ) → contains n seen ≡ contains n order)
    → Evicted max_entries (evict max_entries order seen)
unfolding evict
evict-Evicted max_entries [] seen b d s = record { bounded = omega arith; distinct = tt; same = s }
evict-Evicted max_entries ((n, t) ∷ order) seen b d s =
    elim (Bool-cases (ltb max_entries (length ((n, t) ∷ order)))) [
      | inl over ↦ rw over (record {
        bounded = omega arith;
        distinct = d.1;
        same = λ m. contains-pop n t order seen d.0 m (s m);
      })
      | inr under ↦ rw under (record { bounded = ground arith; distinct = d; same = s })
    ]

record_fresh-IsConsistent :
    (g : ReplayGuard) (timestamp : ℕ) (nonce : Option ℕ)
    → IsConsistent g
    → IsConsistent (record_fresh g timestamp nonce).1
unfolding record_fresh
record_fresh-IsConsistent g timestamp nonce c = elim (Bool-cases (contains nonce g.seen)) [
  | inl old ↦ rw old c
  | inr new ↦
      let e =
        evict-Evicted g.max_entries (g.order ++ (nonce, timestamp) ∷ [])
          (insert nonce timestamp g.seen)
          (omega (arith, length-snoc g.order nonce timestamp, c.bounded))
          (Distinct-snoc g.order nonce timestamp c.distinct (sym (c.same nonce) ∙ new))
          (λ m. ground (
            arith,
            contains-insert nonce m timestamp g.seen,
            contains-append m nonce timestamp g.order,
            c.same m,
          )) in
      rw new (record { bounded = e.bounded; distinct = e.distinct; same = e.same })
]

-- A packet that reaches the caches passed every test before them.
pub record Reaches (g : ReplayGuard) (now timestamp : ℕ) : Type 0 where
  pub guarded : 0 < g.window
  pub stamped : 0 < timestamp
  pub near : distance now timestamp ≤ g.window

-- Either `accept` leaves the state alone, and accepts only where the protection is off, or it is the
-- caches that answer.
pub accept_cases :
    (g : ReplayGuard) (now : ℕ) (now_valid : Bool) (timestamp nonce : Option ℕ)
    → (accept g now now_valid timestamp nonce ≡ (g.window == 0, g))
      ⊎ ((t : ℕ) × (timestamp ≡ some t)
          × Reaches g now t
          × (accept g now now_valid timestamp nonce ≡ record_fresh (prune g now) t nonce))
accept_cases g now now_valid none n = inl (unfold accept in ground arith)
accept_cases g now now_valid (some t) n = elim (Bool-cases (passes g now now_valid t)) [
  | inl pass ↦ inr (t, refl, ground arith, unfold accept in ground arith)
  | inr fail ↦ inl (unfold accept in ground arith)
]
  where
    passes : ReplayGuard → ℕ → Bool → ℕ → Bool
    passes g now now_valid t =
        ltb 0 g.window && now_valid && ltb 0 t && leb (distance now t) g.window

-- `accept` keeps the queue and the dictionary in step and within the bound, whatever it answers.
pub accept-IsConsistent :
    (g : ReplayGuard) (now : ℕ) (now_valid : Bool) (timestamp nonce : Option ℕ)
    → IsConsistent g
    → IsConsistent (accept g now now_valid timestamp nonce).1
accept-IsConsistent g now now_valid stamp n c = elim (accept_cases g now now_valid stamp n) [
  | inl same ↦ rw same c
  | inr (t, _, _, e) ↦
      rw e (record_fresh-IsConsistent (prune g now) t n (prune-IsConsistent g now c))
]

pub init-IsConsistent : (window max_entries : ℕ) → IsConsistent (init window max_entries)
unfolding init contains
init-IsConsistent window max_entries = record {
  bounded = omega arith;
  distinct = tt;
  same = λ n. refl;
}
