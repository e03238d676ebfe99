-- ===== src/Replay/Remembered.antt =====
-- An entry of the queue of a `ReplayGuard`, followed through the operations: where it stands, and
-- how many entries stand behind it.
use esphome_multicast_pubsub.Prelude.{
  ℕ, suc, ◌≤◌, ◌<◌, ◌≡◌, ◌⊎◌, inl, inr, refl, true, Option, [], ◌∷◌, ◌++◌, length, ltb, arith,
  Bool-cases,
}
use esphome_multicast_pubsub.Replay.{
  ReplayGuard, Entries, contains, remove, insert, prune_loop, evict, record_fresh,
}
use esphome_multicast_pubsub.Replay.Invariant.{nonce_eq_iff, length-snoc}

module _ (n : Option ℕ) (t : ℕ) where
  -- The entry stands in the queue, with at most `k` entries behind it.
  abbrev pub Remembered : ℕ → Entries → Type 0
  Remembered k [] = ⊥
  Remembered k ((m, s) ∷ order) = ((m ≡ n) × (s ≡ t) × (length order ≤ k)) ⊎ Remembered k order

  pub Remembered-contains : (k : ℕ) (order : Entries) → Remembered k order → contains n order ≡ true
  unfolding contains
  Remembered-contains k [] r = absurd r
  Remembered-contains k ((m, s) ∷ order) (inl here) = ground (arith, nonce_eq_iff m n)
  Remembered-contains k ((m, s) ∷ order) (inr later) =
      ground (arith, Remembered-contains k order later)

  pub Remembered-suc : (k : ℕ) (order : Entries) → Remembered k order → Remembered (suc k) order
  Remembered-suc k [] r = r
  Remembered-suc k (e ∷ order) (inl here) = inl (here.0, here.1, omega arith)
  Remembered-suc k (e ∷ order) (inr later) = inr (Remembered-suc k order later)

  pub Remembered-snoc :
      (k : ℕ) (order : Entries) (m : Option ℕ) (s : ℕ)
      → Remembered k order
      → Remembered (suc k) (order ++ (m, s) ∷ [])
  Remembered-snoc k [] m s r = absurd r
  Remembered-snoc k (e ∷ order) m s (inl here) =
      inl (here.0, here.1, omega (arith, length-snoc order m s))
  Remembered-snoc k (e ∷ order) m s (inr later) = inr (Remembered-snoc k order m s later)

  pub Remembered-last : (order : Entries) → Remembered 0 (order ++ (n, t) ∷ [])
  Remembered-last [] = inl (refl, refl, omega arith)
  Remembered-last (e ∷ order) = inr (Remembered-last order)

  not_first :
      (k : ℕ) (m : Option ℕ) (s : ℕ) (order : Entries)
      → k < length order
      → Remembered k ((m, s) ∷ order)
      → Remembered k order
  not_first k m s order h (inl here) = absurd (omega arith)
  not_first k m s order h (inr later) = later

  pub Remembered-evict :
      (k max_entries : ℕ) (order seen : Entries)
      → k < max_entries
      → Remembered k order
      → Remembered k (evict max_entries order seen).0
  unfolding evict
  Remembered-evict k max_entries [] seen h r = absurd r
  Remembered-evict k max_entries ((m, s) ∷ order) seen h r =
      elim (Bool-cases (ltb max_entries (suc (length order)))) [
        | inl over ↦ rw over (not_first k m s order (ground arith) r)
        | inr under ↦ rw under r
      ]

  pub Remembered-prune_loop :
      (k cutoff : ℕ) (order seen : Entries)
      → Remembered k order
      → (t < cutoff) ⊎ Remembered k (prune_loop cutoff order seen).0
  unfolding prune_loop
  Remembered-prune_loop k cutoff [] seen r = absurd r
  Remembered-prune_loop k cutoff ((m, s) ∷ order) seen (inl here) =
      elim (Bool-cases (ltb s cutoff)) [
        | inl stale ↦ inl (ground arith)
        | inr fresh ↦ inr (rw fresh (inl here))
      ]
  Remembered-prune_loop k cutoff ((m, s) ∷ order) seen (inr later) =
      elim (Bool-cases (ltb s cutoff)) [
        | inl stale ↦ rw stale (Remembered-prune_loop k cutoff order (remove m seen) later)
        | inr fresh ↦ inr (rw fresh (inr later))
      ]

  pub Remembered-record_fresh :
      (k : ℕ) (g : ReplayGuard) (s : ℕ) (m : Option ℕ)
      → suc k < g.max_entries
      → Remembered k g.order
      → Remembered (suc k) (record_fresh g s m).1.order
  unfolding record_fresh
  Remembered-record_fresh k g s m h r = elim (Bool-cases (contains m g.seen)) [
    | inl old ↦ rw old (Remembered-suc k g.order r)
    | inr new ↦ rw new (
        Remembered-evict (suc k) g.max_entries (g.order ++ (m, s) ∷ []) (insert m s g.seen) h
          (Remembered-snoc k g.order m s r))
  ]
