-- ===== src/Client/Receive.antt =====
-- The receiving half of `MpubsubClient`: `_handle_datagram` and `_dispatch`. A callback's body is not
-- part of the client: `react` says which calls of the client it makes, in order, until one raises;
-- `_dispatch` swallows the exception. `payload.decode(encoding)` is the argument `codec`. A callback
-- that is a coroutine runs later, as steps of its own.
use esphome_multicast_pubsub.Prelude.{
  ℕ, Bool, true, Option, none, some, List, [], ◌∷◌, ◌++◌, Result, ok, raise, Error, wire_error,
  ◌==◌, if◌then◌else◌,
}
use esphome_multicast_pubsub.Prelude.Int.{ℤ}
use esphome_multicast_pubsub.Aead.{FastCipher}
use esphome_multicast_pubsub.Topic.{Hashes}
use esphome_multicast_pubsub.Wire.{Env, DecodedMessage, decode, encoding_raw}
use esphome_multicast_pubsub.Replay.{accept}
use esphome_multicast_pubsub.Rules.{TextArg}
use esphome_multicast_pubsub.Client.{Client, Subscription, Network}
use esphome_multicast_pubsub.Client.Publish.{Payload, publish}
use esphome_multicast_pubsub.Client.Subscribe.{object, siblings_of, unsubscribe}

pub record Message : Type 0 where
  pub topic : List ℕ
  pub payload : List ℕ
  pub was_encrypted : Bool
  pub wire_encoding : ℕ
  pub sender_timestamp : Option ℕ

-- What a callback may do to its client before it returns.
pub data Call : Type 0 where
  call_unsubscribe : List ℕ → ℕ → Call
  call_publish : Env → TextArg → Payload → ℤ → Call

-- Which subscription was called, and with what.
abbrev pub Delivery : Type 0
Delivery = ℕ × Message

-- What a receiving client depends on.
pub record World : Type 0 where
  pub hashes : Hashes
  pub fast : Option FastCipher
  pub net : Network
  pub codec : ℕ → List ℕ → Option (List ℕ)
  pub react : ℕ → Message → List Call

module _ (w : World) where
  unfoldable pub run_calls : Client → List Call → Client
  run_calls c [] = c
  run_calls c (call_unsubscribe topic token ∷ calls) =
      run_calls (unsubscribe w.net c topic token) calls
  run_calls c (call_publish env topic payload qos ∷ calls) =
      let published = publish w.hashes w.fast w.net env c topic payload qos in
      let rest = run_calls published.1 calls in
      elim published.0 [ ok _ ↦ rest | raise e ↦ published.1 ]

  -- The payload that a subscription gets, if its codec can decode it.
  unfoldable pub decoded_payload : Subscription → List ℕ → Option (List ℕ)
  decoded_payload sub payload = elim sub.encoding [
    | none ↦ some payload
    | some encoding ↦ w.codec encoding payload
  ]

  unfoldable pub dispatch : Client → List ℕ → Subscription → DecodedMessage → Client × List Delivery
  unfolding run_calls decoded_payload
  dispatch c topic sub msg = elim (decoded_payload sub msg.payload) [
    | none ↦ (c, [])
    | some payload ↦
        let message : Message = record {
          topic = topic;
          payload = payload;
          was_encrypted = msg.was_encrypted;
          wire_encoding = msg.encoding;
          sender_timestamp = msg.timestamp;
        } in
        (run_calls c (w.react sub.token message), (sub.token, message) ∷ [])
  ]

  -- for sub in list(topic_sub.callbacks)
  unfoldable pub dispatch_callbacks :
      Client → List ℕ → List Subscription → DecodedMessage → Client × List Delivery
  unfolding dispatch
  dispatch_callbacks c topic [] msg = (c, [])
  dispatch_callbacks c topic (sub ∷ subs) msg =
      let first = dispatch c topic sub msg in
      let rest = dispatch_callbacks first.0 topic subs msg in (rest.0, first.1 ++ rest.1)

  -- for topic_sub in list(subs): its callbacks are read when its turn comes.
  unfoldable pub dispatch_topics : Client → List ℕ → DecodedMessage → Client × List Delivery
  unfolding dispatch_callbacks
  dispatch_topics c [] msg = (c, [])
  dispatch_topics c (o ∷ os) msg =
      let topic_sub = object c o in
      let first = dispatch_callbacks c topic_sub.topic topic_sub.callbacks msg in
      let rest = dispatch_topics first.0 os msg in (rest.0, first.1 ++ rest.1)

  -- `_handle_datagram` from the look-up of the subscriptions on.
  unfoldable pub deliver : Client → DecodedMessage → Client × List Delivery
  unfolding siblings_of dispatch_topics
  deliver c msg =
      if msg.encoding == encoding_raw
      then dispatch_topics c (siblings_of msg.topic_crc c.crc_index) msg
      else (c, [])

  -- `self._replay.accept(int(time.time()), True, …)`, asked for encrypted packets only.
  unfoldable pub admit : Client → ℕ → DecodedMessage → Bool × Client
  admit c now msg =
      if msg.was_encrypted
      then (let checked = accept c.replay now true msg.timestamp msg.nonce in
          (checked.0, record c { replay = checked.1 }))
      else (true, c)

  -- A `WireError` is logged; any other exception of `decode` goes on to the event loop.
  unfoldable pub refused : Error → Client → Result (List Delivery) × Client
  refused wire_error c = (ok [], c)
  refused e c = (raise e, c)

  unfoldable pub handle_datagram : ℕ → Client → List ℕ → Result (List Delivery) × Client
  unfolding deliver admit refused
  handle_datagram now c packet = elim (decode w.fast packet c.settings.key) [
    | raise e ↦ refused e c
    | ok msg ↦
        let admitted = admit c now msg in
        if admitted.0
        then (let delivered = deliver admitted.1 msg in (ok delivered.1, delivered.0))
        else (ok [], admitted.1)
  ]
