-- ===== src/Client/Run/Delivered.antt =====
-- The messages that a client hands to its callbacks.
use mathlib.Core.Path.{subst}
use esphome_multicast_pubsub.Prelude.{
  ℕ, ◌≡◌, refl, sym, ap, ◌∙◌, Bool, Option, some, List, [], ◌∷◌, All, All-append, Result, ok, arith,
  ◌==◌, Bool-cases, Option-cases, inl, inr,
}
use esphome_multicast_pubsub.Prelude.Int.{ℤ}
use esphome_multicast_pubsub.Topic.{Hashes, topic_crc32}
use esphome_multicast_pubsub.Wire.{Env, DecodedMessage, decode, encoding_raw}
use esphome_multicast_pubsub.Client.{Client, Network, Subscription}
use esphome_multicast_pubsub.Client.Publish.{Payload, publish}
use esphome_multicast_pubsub.Aead.{FastCipher}
use esphome_multicast_pubsub.Rules.{TextArg}
use esphome_multicast_pubsub.Client.Run.Duplicate.{admitted-handle, rejected-handle}
use esphome_multicast_pubsub.Client.Subscribe.{
  siblings_of, object, forget_topic, unsubscribe, append_callback,
}
use esphome_multicast_pubsub.Client.Receive.{
  World, Delivery, decoded_payload, dispatch, dispatch_callbacks, dispatch_topics, deliver, admit,
  handle_datagram,
}
use esphome_multicast_pubsub.Client.Publish.{start, stop}
use esphome_multicast_pubsub.Client.Run.{
  Step, Reachable, starts, stops, elapses, runs_timer, publishes, subscribes, unsubscribes,
  receives, created, stepped,
}
use esphome_multicast_pubsub.Client.Run.Preserve.{
  if-both, publish-preserves, dispatch_callbacks-preserves, admit-preserves,
  handle_datagram-preserves,
}
use esphome_multicast_pubsub.Client.Run.Sending.{transmit-preserves, run_timer-preserves}
use esphome_multicast_pubsub.Client.Run.Subscriptions.{unsubscribe-preserves, subscribe-preserves}
use esphome_multicast_pubsub.Client.Run.Matching.{
  IsOf, HasIndex, siblings-IsOf, set-IsOf, set-IsIndexed, join_group-HasIndex,
  forget_topic-HasIndex,
}
use esphome_multicast_pubsub.Client.Run.Reached.{init-initial}

ok-eq {ℓ} : {A : Type ℓ} {a b : A} → ok a ≡ ok b → a ≡ b
ok-eq e = cc

-- The message is the datagram's: its topic has the datagram's CRC, its payload is the datagram's or
-- what a codec makes of it, and the rest is as decoded.
abbrev pub IsFrom : World → DecodedMessage → Delivery → Type 0
IsFrom w msg delivery =
    (topic_crc32 w.hashes delivery.1.topic ≡ msg.topic_crc)
    × ((sub : Subscription) × (sub.token ≡ delivery.0)
        × (decoded_payload w sub msg.payload ≡ some delivery.1.payload))
    × (delivery.1.was_encrypted ≡ msg.was_encrypted)
    × (delivery.1.wire_encoding ≡ encoding_raw)
    × (delivery.1.sender_timestamp ≡ msg.timestamp)

module _ (w : World) (msg : DecodedMessage) (raw : msg.encoding ≡ encoding_raw) where
  dispatch-IsFrom :
      (c : Client) (topic : List ℕ) (sub : Subscription)
      → topic_crc32 w.hashes topic ≡ msg.topic_crc
      → All (IsFrom w msg) (dispatch w c topic sub msg).1
  unfolding dispatch
  dispatch-IsFrom c topic sub e = elim (Option-cases (decoded_payload w sub msg.payload)) [
    | inl undecodable ↦ rw (undecodable, dispatch) tt
    | inr (payload, d) ↦ rw (d, dispatch) ((e, (sub, refl, d), refl, raw, refl), tt)
  ]

  dispatch_callbacks-IsFrom :
      (c : Client) (topic : List ℕ) (subs : List Subscription)
      → topic_crc32 w.hashes topic ≡ msg.topic_crc
      → All (IsFrom w msg) (dispatch_callbacks w c topic subs msg).1
  unfolding dispatch_callbacks
  dispatch_callbacks-IsFrom c topic [] e = tt
  dispatch_callbacks-IsFrom c topic (sub ∷ subs) e =
      let first = dispatch w c topic sub msg in
      All-append (IsFrom w msg) first.1 (dispatch_callbacks w first.0 topic subs msg).1
        (dispatch-IsFrom c topic sub e) (dispatch_callbacks-IsFrom first.0 topic subs e)

  -- Callbacks leave the topics of the objects as they are.
  callbacks-IsOf :
      (os : List ℕ) (c : Client) (topic : List ℕ) (subs : List Subscription)
      → All (IsOf w.hashes c.objects msg.topic_crc) os
      → All (IsOf w.hashes (dispatch_callbacks w c topic subs msg).0.objects msg.topic_crc) os
  unfolding forget_topic
  callbacks-IsOf os c topic subs p =
      let P : Client → Type 0 = λ m. All (IsOf w.hashes m.objects msg.topic_crc) os in
      dispatch_callbacks-preserves P w
        (publish-preserves P (λ m _ q. q) w.hashes w.fast w.net
          (transmit-preserves P (λ m _ _ _ _ _ _ q. q) w.net))
        (unsubscribe-preserves P w.net
          (λ m o left q. set-IsOf w.hashes m.objects o left msg.topic_crc os q) (λ m _ _ q. q))
        c topic subs msg p

  dispatch_topics-IsFrom :
      (c : Client) (os : List ℕ)
      → All (IsOf w.hashes c.objects msg.topic_crc) os
      → All (IsFrom w msg) (dispatch_topics w c os msg).1
  unfolding dispatch_topics
  dispatch_topics-IsFrom c [] p = tt
  dispatch_topics-IsFrom c (o ∷ os) p =
      let t = object c o in
      let first = dispatch_callbacks w c t.topic t.callbacks msg in
      All-append (IsFrom w msg) first.1 (dispatch_topics w first.0 os msg).1
        (dispatch_callbacks-IsFrom c t.topic t.callbacks p.0.1)
        (dispatch_topics-IsFrom first.0 os (callbacks-IsOf os c t.topic t.callbacks p.1))

pub deliver-IsFrom :
    (w : World) (c : Client) (msg : DecodedMessage)
    → HasIndex w.hashes c
    → All (IsFrom w msg) (deliver w c msg).1
unfolding deliver
deliver-IsFrom w c msg p = elim (Bool-cases (msg.encoding == encoding_raw)) [
  | inr other ↦ rw other tt
  | inl same ↦
      let raw : msg.encoding ≡ encoding_raw = ground (arith, same) in
      rw same (
        dispatch_topics-IsFrom w msg raw c (siblings_of msg.topic_crc c.crc_index)
          (siblings-IsOf w.hashes c.objects msg.topic_crc c.crc_index p))
]

publish-HasIndex :
    (h : Hashes) (fast : Option FastCipher) (net : Network) (env : Env) (c : Client)
    (topic : TextArg) (payload : Payload) (qos : ℤ)
    → HasIndex h c
    → HasIndex h (publish h fast net env c topic payload qos).1
publish-HasIndex h fast net env c topic payload qos p =
    publish-preserves (HasIndex h) (λ m _ q. q) h fast net
      (transmit-preserves (HasIndex h) (λ m _ _ _ _ _ _ q. q) net) env c topic payload qos p

unsubscribe-HasIndex :
    (h : Hashes) (net : Network) (c : Client) (topic : List ℕ) (token : ℕ)
    → HasIndex h c
    → HasIndex h (unsubscribe net c topic token)
unsubscribe-HasIndex h net c topic token p =
    unsubscribe-preserves (HasIndex h) net
      (λ m o left q. set-IsIndexed h m.objects o left m.crc_index q) (forget_topic-HasIndex h net) c
      topic token p

Step-HasIndex :
    (h : Hashes) (is_codec : ℕ → Bool) {c d : Client}
    → Step h is_codec c d
    → HasIndex h c
    → HasIndex h d
unfolding start stop append_callback
Step-HasIndex h is_codec (starts made c) p =
    if-both (λ (r : Result (Unit {0}) × Client). HasIndex h r.1) made p p
Step-HasIndex h is_codec (stops c) p = tt
Step-HasIndex h is_codec (elapses time c) p = p
Step-HasIndex h is_codec (runs_timer net c i inside due) p =
    run_timer-preserves (HasIndex h) (λ m _ _ _ _ _ _ q. q) net c _ p
Step-HasIndex h is_codec (publishes w env c topic payload qos) p =
    publish-HasIndex h w.fast w.net env c topic payload qos p
Step-HasIndex h is_codec (subscribes net c topic encoding) p =
    subscribe-preserves (HasIndex h) (λ m _ q. q) h net (join_group-HasIndex h net)
      (λ m o encoding q. set-IsIndexed h m.objects o _ m.crc_index q) is_codec c topic encoding p
Step-HasIndex h is_codec (unsubscribes net c topic token) p =
    unsubscribe-HasIndex h net c topic token p
Step-HasIndex h is_codec (receives w now c packet same) p =
    subst (λ h. HasIndex h c → HasIndex h (handle_datagram w now c packet).1) same
      (handle_datagram-preserves (HasIndex w.hashes) w (publish-HasIndex w.hashes w.fast w.net)
        (unsubscribe-HasIndex w.hashes w.net) (λ m g q. q) now c packet)
      p

-- In every state that a client reaches, the index lists each object under the CRC of its topic.
pub Reachable-HasIndex :
    (h : Hashes) (is_codec : ℕ → Bool) {c : Client} → Reachable h is_codec c → HasIndex h c
Reachable-HasIndex h is_codec (created scope key window count delay promote e) =
    let (s, same) = init-initial h scope key window count delay promote e in
    subst (HasIndex h) (sym same) tt
Reachable-HasIndex h is_codec (stepped before step) =
    Step-HasIndex h is_codec step (Reachable-HasIndex h is_codec before)

-- In every state that a client reaches, every message that a datagram brings to a callback is the
-- decoded one: its topic has the datagram's CRC, its encoding is raw, and its payload is the
-- datagram's or what the subscription's codec makes of it, whatever the callbacks do meanwhile.
pub delivered-IsFrom :
    (w : World) (is_codec : ℕ → Bool) (now : ℕ) {c : Client} (packet : List ℕ)
    {msg : DecodedMessage} {deliveries : List Delivery} {d : Client}
    → Reachable w.hashes is_codec c
    → decode w.fast packet c.settings.key ≡ ok msg
    → handle_datagram w now c packet ≡ (ok deliveries, d)
    → All (IsFrom w msg) deliveries
delivered-IsFrom w is_codec now {c} packet {msg} reached decoded handled =
    let admitted = admit w c now msg in
    let p =
      admit-preserves (HasIndex w.hashes) w (publish-HasIndex w.hashes w.fast w.net)
        (unsubscribe-HasIndex w.hashes w.net) (λ m g q. q) c now msg
        (Reachable-HasIndex w.hashes is_codec reached) in
    elim (Bool-cases admitted.0) [
      | inl on ↦
          let end = ap (λ r. r.0) (admitted-handle w now c packet decoded on) in
          subst (All (IsFrom w msg)) (ok-eq (sym end ∙ ap (λ r. r.0) handled))
            (deliver-IsFrom w admitted.1 msg p)
      | inr off ↦
          let end = rejected-handle w now c packet decoded off in
          subst (All (IsFrom w msg)) (ok-eq (sym end ∙ ap (λ r. r.0) handled)) tt
    ]
