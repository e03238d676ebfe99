-- ===== src/Client/Run/Sending.antt =====
-- What does not hang on timers and datagrams outlasts the sending of a publication.
use esphome_multicast_pubsub.Prelude.{
  ℕ, zero, suc, ◌+◌, ◌*◌, Bool, true, List, Option-cases, inl, inr,
}
use esphome_multicast_pubsub.Prelude.Int.{ℤ, pos, eq_ℤ, ltb_ℤ}
use esphome_multicast_pubsub.Client.{
  Client, Timer, Network, Action, fire, tick, retransmit_indefinite, lookup, discard,
}
use esphome_multicast_pubsub.Client.Publish.{
  effective_retransmit_count, cancel_indefinite, start_indefinite, schedule_finite, schedule_one,
  call_later, repeats, sendto, schedule, transmit, cancel, run_action, run_timer,
}
use esphome_multicast_pubsub.Client.Run.Preserve.{if-both}

module _ {κ} (P : Client → Type κ)
    (keep : (c : Client) (timers : List Timer) (indefinite : List (List ℕ × ℕ)) (finite : List ℕ)
        (next : ℕ) (sent : List (List ℕ × List ℕ)) (failed : Bool)
      → P c
      → P (record c {
        timers = timers;
        indefinite = indefinite;
        finite = finite;
        next_handle = next;
        sent = sent;
        send_failed = failed;
      }))
    (net : Network) where
  cancel_indefinite-preserves : (c : Client) (topic : List ℕ) → P c → P (cancel_indefinite c topic)
  unfolding cancel_indefinite
  cancel_indefinite-preserves c topic p = elim (Option-cases (lookup topic c.indefinite)) [
    | inl e ↦ rw (e, cancel_indefinite) p
    | inr (h, e) ↦
        rw (e, cancel_indefinite) (keep c _ _ c.finite c.next_handle c.sent c.send_failed p)
  ]

  sendto-preserves : (c : Client) (datagram group : List ℕ) → P c → P (sendto net c datagram group)
  unfolding sendto
  sendto-preserves c datagram group p =
      if-both P (net.send datagram group)
        (keep c c.timers c.indefinite c.finite c.next_handle _ c.send_failed p)
        (keep c c.timers c.indefinite c.finite c.next_handle c.sent true p)

  schedule_finite-preserves :
      (c : Client) (start n : ℕ) (datagram group : List ℕ)
      → P c
      → P (schedule_finite c start n datagram group)
  unfolding schedule_finite schedule_one call_later
  schedule_finite-preserves c start zero datagram group p = p
  schedule_finite-preserves c start (suc n) datagram group p =
      schedule_finite-preserves
        (schedule_one c (c.settings.retransmit_delay * start) datagram group) (start + 1) n datagram
        group (keep c _ c.indefinite _ _ c.sent c.send_failed p)

  pub transmit-preserves :
      (c : Client) (topic group datagram : List ℕ) (qos : ℤ)
      → P c
      → P (transmit net c topic group datagram qos)
  unfolding transmit schedule start_indefinite call_later
  transmit-preserves c topic group datagram qos p =
      let s = sendto net (cancel_indefinite c topic) datagram group in
      let count = effective_retransmit_count c.settings qos in
      let q =
        sendto-preserves (cancel_indefinite c topic) datagram group
          (cancel_indefinite-preserves c topic p) in
      if-both P (eq_ℤ count retransmit_indefinite) (keep s _ _ s.finite _ s.sent s.send_failed q) (
        if-both P (ltb_ℤ (pos 1) count)
          (schedule_finite-preserves s 1 (repeats count) datagram group q) q)

  run_action-preserves : (c : Client) (h : ℕ) (a : Action) → P c → P (run_action net c h a)
  unfolding run_action start_indefinite call_later
  run_action-preserves c h (fire datagram group) p =
      sendto-preserves (record c { finite = discard h c.finite }) datagram group
        (keep c c.timers c.indefinite _ c.next_handle c.sent c.send_failed p)
  run_action-preserves c h (tick topic group datagram) p =
      let s = sendto net c datagram group in
      keep s _ _ s.finite _ s.sent s.send_failed (sendto-preserves c datagram group p)

  pub run_timer-preserves : (c : Client) (t : Timer) → P c → P (run_timer net c t)
  unfolding run_timer
  run_timer-preserves c t p =
      let ts = cancel t.handle c.timers in
      run_action-preserves (record c { timers = ts }) t.handle t.action
        (keep c ts c.indefinite c.finite c.next_handle c.sent c.send_failed p)
