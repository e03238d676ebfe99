-- ===== src/Client/Publish/Copies.antt =====
-- What one call of `publish` leaves to be sent: the datagrams, when, and to which group.
use mathlib.Core.Path.{subst}
use esphome_multicast_pubsub.Prelude.{
  ℕ, zero, suc, ◌+◌, ◌-◌, ◌*◌, ◌<◌, ◌≡◌, refl, sym, ap, ◌∙◌, true, List, [], ◌∷◌, ◌++◌, append-nil,
  append_assoc, arith, ltb, if◌then◌else◌, Bool-cases, Option-cases, inl, inr, length, get_or,
}
use esphome_multicast_pubsub.Prelude.Int.{ℤ, pos}
use esphome_multicast_pubsub.Client.{lookup, Client, Timer, Network, Action, fire}
use esphome_multicast_pubsub.Client.Publish.{
  effective_retransmit_count, call_later, cancel_indefinite, schedule_one, schedule_finite,
  schedule, sendto, transmit,
}

-- The timers of n resends, the first of them after `start` delays.
unfoldable pub resends : ℕ → ℕ → ℕ → ℕ → ℕ → Action → List Timer
resends handle clock delay start zero a = []
resends handle clock delay start (suc n) a =
    record { handle = handle; due = clock + delay * start; action = a }
    ∷ resends (handle + 1) clock delay (start + 1) n a

pub length-resends :
    (handle clock delay start n : ℕ) (a : Action)
    → length (resends handle clock delay start n a) ≡ n
unfolding resends
length-resends handle clock delay start zero a = refl
length-resends handle clock delay start (suc n) a =
    ap suc (length-resends (handle + 1) clock delay (start + 1) n a)

pub get_or-resends :
    (handle clock delay start n i : ℕ) (a : Action) (t : Timer)
    → i < n
    → get_or (resends handle clock delay start n a) i t
      ≡ record { handle = handle + i; due = clock + delay * (start + i); action = a }
unfolding resends
get_or-resends handle clock delay start zero i a t h = absurd (omega arith)
get_or-resends handle clock delay start (suc n) zero a t h =
    let first : handle + 0 ≡ handle = omega arith in
    let second : start + 0 ≡ start = omega arith in rw (first, second) refl
get_or-resends handle clock delay start (suc n) (suc i) a t h =
    let first : handle + suc i ≡ handle + 1 + i = omega arith in
    let second : start + suc i ≡ start + 1 + i = omega arith in
    rw (first, second) (get_or-resends (handle + 1) clock delay (start + 1) n i a t (omega arith))

pub schedule_finite-timers :
    (c : Client) (start n : ℕ) (datagram group : List ℕ)
    → (schedule_finite c start n datagram group).timers
      ≡ c.timers
        ++ resends c.next_handle c.clock c.settings.retransmit_delay start n (fire datagram group)
unfolding schedule_finite schedule_one call_later resends
schedule_finite-timers c start zero datagram group = sym (append-nil c.timers)
schedule_finite-timers c start (suc n) datagram group =
    let one = schedule_one c (c.settings.retransmit_delay * start) datagram group in
    schedule_finite-timers one (start + 1) n datagram group ∙ append_assoc c.timers _ _

schedule_finite-sent :
    (c : Client) (start n : ℕ) (datagram group : List ℕ)
    → (schedule_finite c start n datagram group).sent ≡ c.sent
unfolding schedule_finite schedule_one call_later
schedule_finite-sent c start zero datagram group = refl
schedule_finite-sent c start (suc n) datagram group =
    schedule_finite-sent (schedule_one c (c.settings.retransmit_delay * start) datagram group)
      (start + 1) n datagram group

-- What `_cancel_indefinite` and `_sendto` change.
pub cancel_indefinite-fields :
    (c : Client) (topic : List ℕ)
    → let after = cancel_indefinite c topic in
      after ≡ record c { indefinite = after.indefinite; timers = after.timers }
unfolding cancel_indefinite
cancel_indefinite-fields c topic = elim (Option-cases (lookup topic c.indefinite)) [
  | inl e ↦ rw (e, cancel_indefinite) refl
  | inr (h, e) ↦ rw (e, cancel_indefinite) refl
]

module _ (net : Network) where
  -- The datagram, if the network takes it.
  abbrev pub taken : List ℕ → List ℕ → List (List ℕ × List ℕ)
  taken datagram group = if net.send datagram group then (datagram, group) ∷ [] else []

  pub sendto-fields :
      (c : Client) (datagram group : List ℕ)
      → sendto net c datagram group ≡ record c {
        sent = c.sent ++ taken datagram group;
        send_failed = if net.send datagram group then c.send_failed else true;
      }
  unfolding sendto
  sendto-fields c datagram group = elim (Bool-cases (net.send datagram group)) [
    | inl e ↦ rw e refl
    | inr e ↦ rw e (ap (λ xs. record c { sent = xs; send_failed = true }) (sym (append-nil c.sent)))
  ]

  schedule-finite :
      (c : Client) (topic group datagram : List ℕ) (n : ℕ)
      → let d = schedule net c topic group datagram (pos n) in
        (d.sent ≡ c.sent)
        × (d.timers
            ≡ c.timers
              ++ resends c.next_handle c.clock c.settings.retransmit_delay 1
                  (n - 1)
                  (fire datagram group))
  unfolding schedule resends
  schedule-finite c topic group datagram n = elim (Bool-cases (ltb 1 n)) [
    | inl more ↦ rw more (
      schedule_finite-sent c 1 (n - 1) datagram group,
      schedule_finite-timers c 1 (n - 1) datagram group,
    )
    | inr once ↦
        let zero_left : n - 1 ≡ 0 = ground (arith, once) in
        rw (once, zero_left) (refl, sym (append-nil c.timers))
  ]

  -- A count of n leaves the immediate datagram and n - 1 timers with the same bytes.
  pub transmit-finite :
      (c : Client) (topic group datagram : List ℕ) (qos : ℤ) (n : ℕ)
      → effective_retransmit_count c.settings qos ≡ pos n
      → let d = transmit net c topic group datagram qos in
        (d.sent ≡ c.sent ++ taken datagram group)
        × (d.timers
            ≡ (cancel_indefinite c topic).timers
              ++ resends c.next_handle c.clock c.settings.retransmit_delay 1
                  (n - 1)
                  (fire datagram group))
  unfolding transmit
  transmit-finite c topic group datagram qos n e =
      let start = cancel_indefinite c topic in
      let resent =
        resends c.next_handle c.clock c.settings.retransmit_delay 1 (n - 1) (fire datagram group) in
      let same =
        sendto-fields start datagram group
        ∙ ap {A = Client} {B = Client}
            (λ x. record x {
              sent = x.sent ++ taken datagram group;
              send_failed = if net.send datagram group then x.send_failed else true;
            })
            (cancel_indefinite-fields c topic) in
      rw e (
        subst
          (λ s.
            let d = schedule net s topic group datagram (pos n) in
            (d.sent ≡ c.sent ++ taken datagram group) × (d.timers ≡ start.timers ++ resent))
          (sym same) (schedule-finite _ topic group datagram n))
