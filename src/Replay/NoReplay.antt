-- ===== src/Replay/NoReplay.antt =====
-- A packet is accepted once: while fewer than `max_entries` packets come between and the clock does
-- not go back, its repetition is rejected.
use native.Mathlib.Nat.{add-zero}
use esphome_multicast_pubsub.Prelude.{
  ℕ, suc, ◌+◌, ◌-◌, ◌≤◌, ◌<◌, ◌≡◌, ◌⊎◌, inl, inr, refl, ap, ◌∙◌, Bool, true, false, Option, some,
  List, [], ◌∷◌, ◌++◌, length, ◌==◌, arith, Bool-cases,
}
use esphome_multicast_pubsub.Replay.{ReplayGuard, contains, insert, prune, record_fresh, accept}
use esphome_multicast_pubsub.Replay.Remembered.{
  Remembered, Remembered-contains, Remembered-suc, Remembered-last, Remembered-evict,
  Remembered-prune_loop, Remembered-record_fresh,
}
use esphome_multicast_pubsub.Replay.Invariant.{
  IsConsistent, Reaches, accept_cases, accept-IsConsistent, prune-IsConsistent,
}

-- A packet as `accept` is asked about it.
pub record Packet : Type 0 where
  pub now : ℕ
  pub now_valid : Bool
  pub timestamp : Option ℕ
  pub nonce : Option ℕ

-- The state after a sequence of packets, accepted or not.
unfoldable pub run : ReplayGuard → List Packet → ReplayGuard
run g [] = g
run g (p ∷ packets) = run (accept g p.now p.now_valid p.timestamp p.nonce).1 packets

-- The clock goes from `start` through the packets to `end` without going back.
abbrev pub Ordered : ℕ → List Packet → ℕ → Type 0
Ordered start [] end = start ≤ end
Ordered start (p ∷ packets) end = (start ≤ p.now) × Ordered p.now packets end

module _ (n : Option ℕ) (t : ℕ) where
  -- The entry is remembered, or its timestamp has left the window.
  abbrev Known : ℕ → ReplayGuard → ℕ → Type 0
  Known k g now = (t < now - g.window) ⊎ Remembered n t k g.order

  -- What does not change: the settings.
  abbrev Settings : ReplayGuard → ReplayGuard → Type 0
  Settings g g' = (g'.window ≡ g.window) × (g'.max_entries ≡ g.max_entries)

  record_fresh-Settings :
      (g : ReplayGuard) (s : ℕ) (m : Option ℕ) → Settings g (record_fresh g s m).1
  unfolding record_fresh
  record_fresh-Settings g s m = elim (Bool-cases (contains m g.seen)) [
    | inl old ↦ rw old (refl, refl)
    | inr new ↦ rw new (refl, refl)
  ]

  prune-Known :
      (k : ℕ) (g : ReplayGuard) (now now' : ℕ)
      → now ≤ now'
      → Known k g now
      → Settings g (prune g now') × Known k (prune g now') now'
  unfolding prune
  prune-Known k g now now' later (inl stale) = ((refl, refl), inl (omega arith))
  prune-Known k g now now' later (inr r) =
      ((refl, refl), Remembered-prune_loop n t k (now' - g.window) g.order g.seen r)

  record_fresh-Known :
      (k : ℕ) (g : ReplayGuard) (now s : ℕ) (m : Option ℕ)
      → suc k < g.max_entries
      → Known k g now
      → Known (suc k) (record_fresh g s m).1 now
  record_fresh-Known k g now s m room (inl stale) =
      inl (omega (arith, (record_fresh-Settings g s m).0))
  record_fresh-Known k g now s m room (inr r) = inr (Remembered-record_fresh n t k g s m room r)

  -- One more packet, accepted or not.
  accept-Known :
      (k : ℕ) (g : ReplayGuard) (now : ℕ) (p : Packet)
      → now ≤ p.now
      → suc k < g.max_entries
      → Known k g now
      → Settings g (accept g p.now p.now_valid p.timestamp p.nonce).1
        × Known (suc k) (accept g p.now p.now_valid p.timestamp p.nonce).1 p.now
  accept-Known k g now p later room known =
      elim (accept_cases g p.now p.now_valid p.timestamp p.nonce) [
        | inl same ↦ rw same ((refl, refl), unchanged known)
        | inr (s, _, _, e) ↦
            let (fixed, pruned) = prune-Known k g now p.now later known in
            let fixed' = record_fresh-Settings (prune g p.now) s p.nonce in
            rw e (
              (fixed'.0 ∙ fixed.0, fixed'.1 ∙ fixed.1),
              record_fresh-Known k (prune g p.now) p.now s p.nonce (rw fixed.1 room) pruned,
            )
      ]
    where
      unchanged : Known k g now → Known (suc k) g p.now
      unchanged (inl stale) = inl (omega arith)
      unchanged (inr r) = inr (Remembered-suc n t k g.order r)

  Known-later :
      (k : ℕ) (g : ReplayGuard) (now now' : ℕ) → now ≤ now' → Known k g now → Known k g now'
  Known-later k g now now' h (inl stale) = inl (omega arith)
  Known-later k g now now' h (inr r) = inr r

  run-Known :
      (packets : List Packet) (k : ℕ) (g : ReplayGuard) (start end : ℕ)
      → Ordered start packets end
      → k + length packets < g.max_entries
      → IsConsistent g
      → Known k g start
      → IsConsistent (run g packets)
        × (((run g packets).window ≡ g.window) × Known (k + length packets) (run g packets) end)
  unfolding run
  run-Known [] k g start end ordered room c known =
      (c, (refl, rw add-zero (Known-later k g start end ordered known)))
  run-Known (p ∷ packets) k g start end ordered room c known =
      let g' = (accept g p.now p.now_valid p.timestamp p.nonce).1 in
      let (fixed, known') = accept-Known k g start p ordered.0 (omega arith) known in
      let c' = accept-IsConsistent g p.now p.now_valid p.timestamp p.nonce c in
      let (c'', rest) =
        run-Known packets (suc k) g' p.now end ordered.1 (omega (arith, fixed.1)) c' known' in
      let one_more : k + suc (length packets) ≡ suc k + length packets = omega arith in
      (c'', (rest.0 ∙ fixed.0, rw one_more rest.1))

  -- At a state that knows the packet, it is rejected.
  rejects :
      (k : ℕ) (g : ReplayGuard) (now : ℕ) (now_valid : Bool)
      → 0 < g.window
      → IsConsistent g
      → Known k g now
      → (accept g now now_valid (some t) n).0 ≡ false
  rejects k g now now_valid on c known = elim (accept_cases g now now_valid (some t) n) [
    | inl same ↦ rw same (ground arith)
    | inr (s, e, passed, r) ↦
        let when : s ≡ t = cc e in
        let (_, pruned) = prune-Known k g now now (omega arith) known in
        ap (λ x. x.0) r ∙ repeated (prune g now) s (still s when passed pruned)
  ]
    where
      repeated :
          (g : ReplayGuard) (s : ℕ) → contains n g.seen ≡ true → (record_fresh g s n).0 ≡ false
      repeated g s h = unfold record_fresh in rw h

      still :
          (s : ℕ)
          → s ≡ t
          → Reaches g now s
          → Known k (prune g now) now
          → contains n (prune g now).seen ≡ true
      still s when passed (inl stale) = absurd (unfold prune in ground arith)
      still s when passed (inr r) =
          (prune-IsConsistent g now c).same n ∙ Remembered-contains n t k (prune g now).order r

  Remembered-recorded :
      (g : ReplayGuard) {g' : ReplayGuard}
      → 0 < g.max_entries
      → record_fresh g t n ≡ (true, g')
      → Remembered n t 0 (record_fresh g t n).1.order
  unfolding record_fresh
  Remembered-recorded g room h = elim (Bool-cases (contains n g.seen)) [
    | inl old ↦ absurd (ground arith)
    | inr new ↦ rw new (
        Remembered-evict n t 0 g.max_entries (g.order ++ (n, t) ∷ []) (insert n t g.seen) room
          (Remembered-last n t g.order))
  ]

  -- Once the packet is accepted, it is known.
  accepted-Known :
      (g : ReplayGuard) (now : ℕ) (now_valid : Bool) {g' : ReplayGuard}
      → 0 < g.window
      → 0 < g.max_entries
      → accept g now now_valid (some t) n ≡ (true, g')
      → Settings g g' × Known 0 g' now
  accepted-Known g now now_valid {g'} on room h = elim (accept_cases g now now_valid (some t) n) [
    | inl same ↦ absurd (off (cc (same, h)))
    | inr (s, e, passed, r) ↦
        let recorded : record_fresh (prune g now) t n ≡ (true, g') = cc (r, e, h) in
        let room' : 0 < (prune g now).max_entries = unfold prune in room in
        let fixed : Settings g (prune g now) = unfold prune in (refl, refl) in
        let fixed' = record_fresh-Settings (prune g now) t n in
        let known : Settings g (record_fresh (prune g now) t n).1
            × Known 0 (record_fresh (prune g now) t n).1 now =
          (
            (fixed'.0 ∙ fixed.0, fixed'.1 ∙ fixed.1),
            inr (Remembered-recorded (prune g now) room' recorded),
          ) in
        rw (ap (λ x. x.1) recorded) at known
  ]
    where
      off : (g.window == 0) ≡ true → ⊥
      off e = ground arith

-- A packet that was accepted is rejected when it comes again, if the clock has not gone back and
-- fewer than `max_entries` packets, accepted or not, came between.
pub no_replay :
    (g : ReplayGuard) (now t : ℕ) (now_valid : Bool) (n : Option ℕ) (packets : List Packet)
    (end : ℕ) (end_valid : Bool) {g' : ReplayGuard}
    → IsConsistent g
    → 0 < g.window
    → accept g now now_valid (some t) n ≡ (true, g')
    → Ordered now packets end
    → length packets < g.max_entries
    → (accept (run g' packets) end end_valid (some t) n).0 ≡ false
no_replay g now t now_valid n packets end end_valid {g'} c on h ordered room =
    let (fixed, known) = accepted-Known n t g now now_valid on (omega arith) h in
    let c' : IsConsistent g' =
      rw (ap (λ x. x.1) h) at (accept-IsConsistent g now now_valid (some t) n c) in
    let (c'', rest) =
      run-Known n t packets 0 g' now end ordered (omega (arith, fixed.1)) c' known in
    rejects n t (0 + length packets) (run g' packets) end end_valid (omega (arith, rest.0, fixed.0))
      c'' rest.1
