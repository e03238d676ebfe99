-- ===== src/Client/Publish/Tracked.antt =====
-- Each operation of the sending half keeps every pending timer in its table.
use esphome_multicast_pubsub.Prelude.{
  ℕ, zero, suc, ◌+◌, ◌*◌, ◌<◌, List, [], ◌∷◌, ◌++◌, All-append, arith, ==_self, Bool-cases,
  Option-cases, inl, inr,
}
use esphome_multicast_pubsub.Prelude.Int.{ℤ, pos, eq_ℤ, ltb_ℤ}
use esphome_multicast_pubsub.Client.{
  Client, Timer, Action, fire, tick, Network, retransmit_indefinite, lookup, insert, discard,
}
use esphome_multicast_pubsub.Client.Publish.{
  effective_retransmit_count, cancel, call_later, cancel_indefinite, start_indefinite, schedule_one,
  schedule_finite, repeats, sendto, transmit, schedule, run_action, run_timer,
}
use esphome_multicast_pubsub.Client.Publish.Chains.{
  IsListed, IsTracked, HasTrackedTimers, All-map₁, All-map₂, All-cancel, cancel-gone,
  cancel-IsDistinct, append-IsDistinct, lookup-insert,
}
use esphome_multicast_pubsub.Client.Publish.Listed.{
  HasNoTick, other_tick, unlisted, IsListed-remove, IsListed-insert, IsListed-more,
  IsListed-discard,
}

-- A timer that has been cancelled or has run needs no table.
pub cancel-IsTracked :
    (h : ℕ) (ts : List Timer) (d : List (List ℕ × ℕ)) (f : List ℕ) (n : ℕ)
    → IsTracked ts d f n
    → IsTracked (cancel h ts) d f n
cancel-IsTracked h ts d f n (listed, below, distinct) = (
  All-cancel (λ t. IsListed d f t.handle t.action) h ts listed,
  All-cancel (λ t. t.handle < n) h ts below,
  cancel-IsDistinct h ts distinct,
)

-- A new timer in its table.
append-IsTracked :
    (ts : List Timer) (d : List (List ℕ × ℕ)) (f : List ℕ) (t : Timer)
    → IsListed d f t.handle t.action
    → IsTracked ts d f t.handle
    → IsTracked (ts ++ t ∷ []) d f (t.handle + 1)
append-IsTracked ts d f t own (listed, below, distinct) = (
  All-append (λ s. IsListed d f s.handle s.action) ts (t ∷ []) listed (own, tt),
  All-append (λ s. s.handle < t.handle + 1) ts (t ∷ []) (All-map₁ (λ s p. omega arith) ts below)
      (omega arith, tt),
  append-IsDistinct ts t distinct below,
)

pub cancel_indefinite-HasTrackedTimers :
    (c : Client) (topic : List ℕ)
    → HasTrackedTimers c
    → HasTrackedTimers (cancel_indefinite c topic)
      × HasNoTick topic (cancel_indefinite c topic).timers
unfolding cancel_indefinite
cancel_indefinite-HasTrackedTimers c topic p = elim (Option-cases (lookup topic c.indefinite)) [
  | inl e ↦
      rw (e, cancel_indefinite)
        (
          p,
          All-map₁ (λ t l. unlisted c.indefinite c.finite topic t.handle t.action e l) c.timers p.0,
        )
  | inr (h, e) ↦
      let kept = cancel-IsTracked h c.timers c.indefinite c.finite c.next_handle p in
      let gone = cancel-gone h c.timers in
      let silent : HasNoTick topic (cancel h c.timers) =
        All-map₂ (λ t l ne. other_tick c.indefinite c.finite topic h t.handle t.action e ne l)
          (cancel h c.timers) kept.0 gone in
      rw (e, cancel_indefinite)
        (
          (
            All-map₂ (λ t l ne. IsListed-remove c.indefinite c.finite topic t.handle t.action ne l)
                (cancel h c.timers) kept.0 silent,
            kept.1,
            kept.2,
          ),
          silent,
        )
]

pub start_indefinite-HasTrackedTimers :
    (c : Client) (topic group datagram : List ℕ)
    → HasTrackedTimers c
    → HasNoTick topic c.timers
    → HasTrackedTimers (start_indefinite c topic group datagram)
unfolding start_indefinite call_later
start_indefinite-HasTrackedTimers c topic group datagram p silent =
    append-IsTracked c.timers (insert topic c.next_handle c.indefinite) c.finite
      (record {
        handle = c.next_handle;
        due = c.clock + c.settings.retransmit_delay;
        action = tick topic group datagram;
      })
      (lookup-insert topic c.next_handle c.indefinite)
      (
        All-map₂
            (λ t l ne.
              IsListed-insert c.indefinite c.finite topic c.next_handle t.handle t.action ne l)
            c.timers p.0 silent,
        p.1,
        p.2,
      )

pub schedule_one-HasTrackedTimers :
    (c : Client) (delay : ℕ) (datagram group : List ℕ)
    → HasTrackedTimers c
    → HasTrackedTimers (schedule_one c delay datagram group)
unfolding schedule_one call_later
schedule_one-HasTrackedTimers c delay datagram group p =
    append-IsTracked c.timers c.indefinite (c.next_handle ∷ c.finite)
      (record { handle = c.next_handle; due = c.clock + delay; action = fire datagram group })
      (ground (arith, ==_self c.next_handle))
      (
        All-map₁ (λ t l. IsListed-more c.indefinite c.finite c.next_handle t.handle t.action l)
            c.timers p.0,
        p.1,
        p.2,
      )

pub schedule_finite-HasTrackedTimers :
    (c : Client) (start n : ℕ) (datagram group : List ℕ)
    → HasTrackedTimers c
    → HasTrackedTimers (schedule_finite c start n datagram group)
unfolding schedule_finite
schedule_finite-HasTrackedTimers c start zero datagram group p = p
schedule_finite-HasTrackedTimers c start (suc n) datagram group p =
    let delay = c.settings.retransmit_delay * start in
    schedule_finite-HasTrackedTimers (schedule_one c delay datagram group) (start + 1) n datagram
      group (schedule_one-HasTrackedTimers c delay datagram group p)

module _ (net : Network) where
  pub sendto-timers :
      (P : List Timer → List (List ℕ × ℕ) → List ℕ → ℕ → Type 0) (c : Client)
      (datagram group : List ℕ)
      → P c.timers c.indefinite c.finite c.next_handle
      → let s = sendto net c datagram group in P s.timers s.indefinite s.finite s.next_handle
  unfolding sendto
  sendto-timers P c datagram group p = elim (Bool-cases (net.send datagram group)) [
    | inl e ↦ rw e p
    | inr e ↦ rw e p
  ]

  pub transmit-HasTrackedTimers :
      (c : Client) (topic group datagram : List ℕ) (qos : ℤ)
      → HasTrackedTimers c
      → HasTrackedTimers (transmit net c topic group datagram qos)
  unfolding transmit schedule
  transmit-HasTrackedTimers c topic group datagram qos p =
      let start = cancel_indefinite-HasTrackedTimers c topic p in
      let (tracked, silent) =
        sendto-timers (λ ts d f n. IsTracked ts d f n × HasNoTick topic ts)
          (cancel_indefinite c topic) datagram group start in
      let sent = sendto net (cancel_indefinite c topic) datagram group in
      let count = effective_retransmit_count c.settings qos in
      elim (Bool-cases (eq_ℤ count retransmit_indefinite)) [
        | inl e ↦ rw e (start_indefinite-HasTrackedTimers sent topic group datagram tracked silent)
        | inr e ↦ elim (Bool-cases (ltb_ℤ (pos 1) count)) [
          | inl more ↦ rw e (
              rw more
                (schedule_finite-HasTrackedTimers sent 1 (repeats count) datagram group tracked))
          | inr once ↦ rw e (rw once tracked)
        ]
      ]

  run_action-HasTrackedTimers :
      (c : Client) (h : ℕ) (a : Action)
      → IsListed c.indefinite c.finite h a
      → HasTrackedTimers c
      → HasTrackedTimers (run_action net (record c { timers = cancel h c.timers }) h a)
  unfolding run_action
  run_action-HasTrackedTimers c h (fire datagram group) l p =
      let kept = cancel-IsTracked h c.timers c.indefinite c.finite c.next_handle p in
      sendto-timers IsTracked (record c { timers = cancel h c.timers; finite = discard h c.finite })
        datagram group
        (
          All-map₂ (λ t own ne. IsListed-discard c.indefinite c.finite h t.handle t.action ne own)
              (cancel h c.timers) kept.0 (cancel-gone h c.timers),
          kept.1,
          kept.2,
        )
  run_action-HasTrackedTimers c h (tick topic group datagram) l p =
      let kept = cancel-IsTracked h c.timers c.indefinite c.finite c.next_handle p in
      let silent : HasNoTick topic (cancel h c.timers) =
        All-map₂ (λ t own ne. other_tick c.indefinite c.finite topic h t.handle t.action l ne own)
          (cancel h c.timers) kept.0 (cancel-gone h c.timers) in
      let without = record c { timers = cancel h c.timers } in
      let (tracked, quiet) =
        sendto-timers (λ ts d f n. IsTracked ts d f n × HasNoTick topic ts) without datagram group
          (kept, silent) in
      start_indefinite-HasTrackedTimers (sendto net without datagram group) topic group datagram
        tracked quiet

  pub run_timer-HasTrackedTimers :
      (c : Client) (t : Timer)
      → IsListed c.indefinite c.finite t.handle t.action
      → HasTrackedTimers c
      → HasTrackedTimers (run_timer net c t)
  unfolding run_timer
  run_timer-HasTrackedTimers c t l p = run_action-HasTrackedTimers c t.handle t.action l p
