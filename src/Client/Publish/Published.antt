-- ===== src/Client/Publish/Published.antt =====
-- `publish` as a whole: what a call that returns has sent and scheduled.
use esphome_multicast_pubsub.Prelude.{
  ℕ, ◌+◌, ◌-◌, ◌*◌, ◌<◌, ◌≡◌, refl, sym, ap, ◌∙◌, true, Option, List, ◌++◌, ok, raise, Error,
  mpubsub_error, Bool-cases, Option-cases, inl, inr, length, get_or,
}
use esphome_multicast_pubsub.Prelude.Int.{ℤ, pos}
use esphome_multicast_pubsub.Aead.{FastCipher}
use esphome_multicast_pubsub.Topic.{Hashes}
use esphome_multicast_pubsub.Wire.{Env}
use esphome_multicast_pubsub.Rules.{str}
use esphome_multicast_pubsub.Rules.Aio.{validate_topic}
use esphome_multicast_pubsub.Rules.Agree.{validate_topic_iff}
use esphome_multicast_pubsub.Client.{lookup, Client, Timer, Network, fire}
use esphome_multicast_pubsub.Client.Publish.{
  Payload, effective_retransmit_count, group_for, encode_publication, publish, publish_started,
  cancel_indefinite, transmit,
}
use esphome_multicast_pubsub.Client.Run.Preserve.{Result-cases, group_for-memo}
use esphome_multicast_pubsub.Client.Publish.Copies.{
  resends, length-resends, get_or-resends, taken, transmit-finite,
}

raise≢ok {ℓ} : {A : Type ℓ} {why : Error} {a : A} → raise why ≡ ok a → ⊥
raise≢ok e = cc

cancel_indefinite-groups :
    (c : Client) (g : List (List ℕ × List ℕ)) (topic : List ℕ)
    → (cancel_indefinite (record c { groups = g }) topic).timers
      ≡ (cancel_indefinite c topic).timers
unfolding cancel_indefinite
cancel_indefinite-groups c g topic = elim (Option-cases (lookup topic c.indefinite)) [
  | inl e ↦ rw (e, cancel_indefinite) refl
  | inr (h, e) ↦ rw (e, cancel_indefinite) refl
]

module _ (h : Hashes) (fast : Option FastCipher) (net : Network) (env : Env) where
  publish_started-ok :
      (c : Client) (topic : List ℕ) (payload : Payload) (qos : ℤ) {d : Client}
      → publish_started h fast net env c topic payload qos ≡ (ok tt, d)
      → (group : List ℕ) × (memo : Client) × (datagram : List ℕ) × (group_for h c topic
          ≡ ok (group, memo))
        × (encode_publication h fast net env memo topic payload ≡ ok datagram)
        × (d ≡ transmit net memo topic group datagram qos)
  unfolding publish_started
  publish_started-ok c topic payload qos returned = elim (Result-cases (group_for h c topic)) [
    | inl (e, failed) ↦
        let end : publish_started h fast net env c topic payload qos ≡ (raise e, c) =
          rw (failed, publish_started) refl in
        absurd (raise≢ok (ap (λ r. r.0) (sym end ∙ returned)))
    | inr ((group, memo), found) ↦
        elim (Result-cases (encode_publication h fast net env memo topic payload)) [
          | inl (e, failed) ↦
              let end : publish_started h fast net env c topic payload qos ≡ (raise e, memo) =
                rw (found, publish_started) (rw failed refl) in
              absurd (raise≢ok (ap (λ r. r.0) (sym end ∙ returned)))
          | inr (datagram, encoded) ↦
              let end : publish_started h fast net env c topic payload qos
                  ≡ (ok tt, transmit net memo topic group datagram qos) =
                rw (found, publish_started) (rw encoded refl) in
              (group, memo, datagram, found, encoded, sym (ap (λ r. r.1) (sym end ∙ returned)))
        ]
  ]

  -- A call that returns went through to the end, with a group and a datagram.
  pub publish-ok :
      (c : Client) (topic : List ℕ) (payload : Payload) (qos : ℤ) {d : Client}
      → publish h fast net env c (str topic) payload qos ≡ (ok tt, d)
      → (c.started ≡ true)
        × (group : List ℕ) × (memo : Client) × (datagram : List ℕ) × (group_for h c topic
            ≡ ok (group, memo))
        × (encode_publication h fast net env memo topic payload ≡ ok datagram)
        × (d ≡ transmit net memo topic group datagram qos)
  unfolding publish
  publish-ok c topic payload qos returned = elim (Result-cases (validate_topic (str topic))) [
    | inl (e, failed) ↦
        let end : publish h fast net env c (str topic) payload qos ≡ (raise e, c) =
          rw (failed, publish) refl in
        absurd (raise≢ok (ap (λ r. r.0) (sym end ∙ returned)))
    | inr (t, valid) ↦
        let same = ((validate_topic_iff topic t).0 valid).0 in
        let valid_topic : validate_topic (str topic) ≡ ok topic = valid ∙ ap ok same in
        elim (Bool-cases c.started) [
          | inr off ↦
              let end : publish h fast net env c (str topic) payload qos
                  ≡ (raise mpubsub_error, c) =
                rw (valid_topic, publish) (simp off refl) in
              absurd (raise≢ok (ap (λ r. r.0) (sym end ∙ returned)))
          | inl on ↦
              let end : publish h fast net env c (str topic) payload qos
                  ≡ publish_started h fast net env c topic payload qos =
                rw (valid_topic, publish) (simp on refl) in
              let (group, memo, datagram, found, encoded, result) =
                publish_started-ok c topic payload qos (sym end ∙ returned) in
              (on, group, memo, datagram, found, encoded, result)
        ]
  ]

  -- A call of `publish` that returns, where the effective count is n, sends one datagram at once, if
  -- the network takes it, and leaves n - 1 new timers behind those that are not of this topic's
  -- chain: timer i is due after i + 1 delays and sends the same bytes to the same group.
  pub publish-finite :
      (c : Client) (topic : List ℕ) (payload : Payload) (qos : ℤ) (n : ℕ) {d : Client}
      → publish h fast net env c (str topic) payload qos ≡ (ok tt, d)
      → effective_retransmit_count c.settings qos ≡ pos n
      → (group : List ℕ) × (datagram : List ℕ) × (encode_publication h fast net env c topic payload
          ≡ ok datagram)
        × (d.sent ≡ c.sent ++ taken net datagram group)
        × (resent : List Timer) × (d.timers ≡ (cancel_indefinite c topic).timers ++ resent)
        × (length resent ≡ n - 1)
        × ((i : ℕ) (t : Timer)
            → i < n - 1
            → get_or resent i t ≡ record {
              handle = c.next_handle + i;
              due = c.clock + c.settings.retransmit_delay * (1 + i);
              action = fire datagram group;
            })
  unfolding encode_publication
  publish-finite c topic payload qos n {d} returned count =
      let (on, group, memo, datagram, found, encoded, result) =
        publish-ok c topic payload qos returned in
      let (g, same) = group_for-memo h c topic found in
      let c' : Client = record c { groups = g } in
      let sent = transmit-finite net c' topic group datagram qos n count in
      let result' : d ≡ transmit net c' topic group datagram qos =
        result ∙ ap (λ m. transmit net m topic group datagram qos) same in
      let delay = c.settings.retransmit_delay in
      let resent = resends c.next_handle c.clock delay 1 (n - 1) (fire datagram group) in
      (
        group,
        datagram,
        ap (λ m. encode_publication h fast net env m topic payload) (sym same) ∙ encoded,
        ap (λ m. m.sent) result' ∙ sent.0,
        resent,
        ap (λ m. m.timers) result'
            ∙ sent.1
            ∙ ap (λ ts. ts ++ resent) (cancel_indefinite-groups c g topic),
        length-resends c.next_handle c.clock delay 1 (n - 1) (fire datagram group),
        λ i t inside.
            get_or-resends c.next_handle c.clock delay 1 (n - 1) i (fire datagram group) t inside,
      )
