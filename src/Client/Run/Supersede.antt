-- ===== src/Client/Run/Supersede.antt =====
-- A new publication against the chain that an earlier one of its topic left.
use esphome_multicast_pubsub.Prelude.{
  ℕ, zero, suc, ◌+◌, ◌≡◌, refl, ap, ◌∙◌, Bool, Option, List, [], ◌∷◌, ◌++◌, ok, arith,
  if◌then◌else◌, Bool-cases, inl, inr,
}
use esphome_multicast_pubsub.Prelude.Int.{ℤ, pos, eq_ℤ, ltb_ℤ}
use esphome_multicast_pubsub.Aead.{FastCipher}
use esphome_multicast_pubsub.Topic.{Hashes}
use esphome_multicast_pubsub.Wire.{Env}
use esphome_multicast_pubsub.Rules.{str}
use esphome_multicast_pubsub.Client.{Client, Timer, Network, fire, tick, retransmit_indefinite}
use esphome_multicast_pubsub.Client.Publish.{
  Payload, effective_retransmit_count, publish, cancel_indefinite, start_indefinite, call_later,
  repeats, sendto, schedule, transmit,
}
use esphome_multicast_pubsub.Client.Publish.Chains.{HasTrackedTimers, chains, bytes_eq_refl}
use esphome_multicast_pubsub.Client.Publish.Tracked.{
  cancel_indefinite-HasTrackedTimers, sendto-timers,
}
use esphome_multicast_pubsub.Client.Publish.Listed.{HasNoTick}
use esphome_multicast_pubsub.Client.Publish.Copies.{resends, schedule_finite-timers}
use esphome_multicast_pubsub.Client.Publish.Published.{publish-ok}
use esphome_multicast_pubsub.Client.Run.{Reachable}
use esphome_multicast_pubsub.Client.Run.Preserve.{group_for-preserves}
use esphome_multicast_pubsub.Client.Run.Timers.{chains-silent}
use esphome_multicast_pubsub.Client.Run.Reached.{Reachable-HasTrackedTimers}

chains-append :
    (topic : List ℕ) (xs ys : List Timer)
    → chains topic (xs ++ ys) ≡ chains topic xs + chains topic ys
unfolding chains
chains-append topic [] ys = omega arith
chains-append topic (x ∷ xs) ys = ground (arith, chains-append topic xs ys)

chains-resends :
    (topic : List ℕ) (handle clock delay start n : ℕ) (datagram group : List ℕ)
    → chains topic (resends handle clock delay start n (fire datagram group)) ≡ 0
unfolding chains resends
chains-resends topic handle clock delay start zero datagram group = refl
chains-resends topic handle clock delay start (suc n) datagram group =
    chains-resends topic (handle + 1) clock delay (start + 1) n datagram group

-- The chain that a count starts.
abbrev pub chains_of : ℤ → ℕ
chains_of count = if eq_ℤ count retransmit_indefinite then 1 else 0

module _ (net : Network) where
  schedule-chains :
      (c : Client) (topic group datagram : List ℕ) (count : ℤ)
      → HasNoTick topic c.timers
      → chains topic (schedule net c topic group datagram count).timers ≡ chains_of count
  unfolding schedule start_indefinite call_later chains
  schedule-chains c topic group datagram count silent =
      let before = chains-silent topic c.timers silent in
      elim (Bool-cases (eq_ℤ count retransmit_indefinite)) [
        | inl forever ↦ rw forever (
            let own : chains topic (
                  record {
                    handle = c.next_handle;
                    due = c.clock + c.settings.retransmit_delay;
                    action = tick topic group datagram;
                  }
                  ∷ [])
                ≡ 1 =
              rw (bytes_eq_refl topic) refl in
            chains-append topic c.timers _ ∙ omega (arith, before, own))
        | inr counted ↦ elim (Bool-cases (ltb_ℤ (pos 1) count)) [
          | inr once ↦ rw counted (rw once before)
          | inl more ↦
              let later =
                resends c.next_handle c.clock c.settings.retransmit_delay 1 (repeats count)
                  (fire datagram group) in
              let quiet =
                chains-resends topic c.next_handle c.clock c.settings.retransmit_delay 1
                  (repeats count) datagram group in
              rw counted (
                rw more (
                  ap (chains topic) (schedule_finite-timers c 1 (repeats count) datagram group)
                  ∙ chains-append topic c.timers later
                  ∙ omega (arith, before, quiet)))
        ]
      ]

  transmit-chains :
      (c : Client) (topic group datagram : List ℕ) (qos : ℤ)
      → HasTrackedTimers c
      → chains topic (transmit net c topic group datagram qos).timers
        ≡ chains_of (effective_retransmit_count c.settings qos)
  unfolding transmit
  transmit-chains c topic group datagram qos p =
      let (tracked, silent) = cancel_indefinite-HasTrackedTimers c topic p in
      let start = cancel_indefinite c topic in
      schedule-chains (sendto net start datagram group) topic group datagram
        (effective_retransmit_count c.settings qos)
        (sendto-timers net (λ ts d f n. HasNoTick topic ts) start datagram group silent)

  -- In every state that a client reaches: after a call of `publish` that returns, the topic has one
  -- chain if the effective count is -1 and none otherwise, whatever chain an earlier call left.
  pub publish-chains :
      (h : Hashes) (is_codec : ℕ → Bool) (fast : Option FastCipher) (env : Env) {c : Client}
      (topic : List ℕ) (payload : Payload) (qos : ℤ) {d : Client}
      → Reachable h is_codec c
      → publish h fast net env c (str topic) payload qos ≡ (ok tt, d)
      → chains topic d.timers
        ≡ (if eq_ℤ (effective_retransmit_count c.settings qos) retransmit_indefinite then 1 else 0)
  publish-chains h is_codec fast env {c} topic payload qos reached returned =
      let (on, group, memo, datagram, found, encoded, result) =
        publish-ok h fast net env c topic payload qos returned in
      let (p, same) =
        group_for-preserves (λ m. HasTrackedTimers m × (m.settings ≡ c.settings)) (λ m g q. q) h c
          topic found (Reachable-HasTrackedTimers h is_codec reached, refl) in
      ap (λ m. chains topic m.timers) result
      ∙ transmit-chains memo topic group datagram qos p
      ∙ ap (λ s. chains_of (effective_retransmit_count s qos)) same
