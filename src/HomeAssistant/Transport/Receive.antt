-- ===== src/HomeAssistant/Transport/Receive.antt =====
-- The receiving half of the Home Assistant transport: `handle_datagram` and `_dispatch`.
-- `async_run_hass_job` is Home Assistant's: `run_job` is what it does to the client, and the
-- exception that it lets through, if any.
use esphome_multicast_pubsub.Prelude.{
  ℕ, Bool, true, false, Option, none, some, List, [], ◌∷◌, ◌++◌, Result, ok, raise, Error,
  wire_error, ◌==◌, if◌then◌else◌,
}
use esphome_multicast_pubsub.Aead.{FastCipher}
use esphome_multicast_pubsub.Wire.{DecodedMessage, decode, encoding_raw}
use esphome_multicast_pubsub.Replay.{accept}
use esphome_multicast_pubsub.Client.{Client, Subscription}
use esphome_multicast_pubsub.Client.Subscribe.{object, siblings_of}

pub record ReceiveMessage : Type 0 where
  pub topic : List ℕ
  pub payload : List ℕ
  pub qos : ℕ
  pub retain : Bool
  pub subscribed_topic : List ℕ
  pub timestamp : ℕ
  pub was_encrypted : Bool
  pub wire_encoding : ℕ
  pub sender_timestamp : Option ℕ

-- `payload.decode(encoding)`: the text, or one of the two exceptions that `_dispatch` catches.
pub data Decoding : Type 0 where
  text : List ℕ → Decoding
  unicode_decode_error : Decoding
  unknown_codec : Decoding

abbrev pub Job : Type 0
Job = ℕ × ReceiveMessage

-- What is delivered before an exception stops the loop, the exception, and the client.
pub record Outcome : Type 0 where
  pub client : Client
  pub jobs : List Job
  pub result : Result (Unit {0})

-- What follows is what a loop does next, if nothing was raised.
unfoldable pub resume : Outcome → Outcome → Result (Unit {0}) → Outcome
resume first rest (raise e) = first
resume first rest (ok _) = record {
  client = rest.client;
  jobs = first.jobs ++ rest.jobs;
  result = rest.result;
}

unfoldable pub and_then : Outcome → (Client → Outcome) → Outcome
unfolding resume
and_then first next = resume first (next first.client) first.result

module _ (fast : Option FastCipher) (codec : ℕ → List ℕ → Decoding)
    (run_job : Client → Job → Result (Unit {0}) × Client) where
  -- The payload as the subscription wants it.
  unfoldable pub decode_payload : Option ℕ → List ℕ → Decoding
  decode_payload none payload = text payload
  decode_payload (some encoding) payload = codec encoding payload

  -- The job with its message, or nothing where the payload could not be decoded.
  unfoldable pub run_decoded :
      Client → List ℕ → Subscription → DecodedMessage → ℕ → Decoding → Outcome
  run_decoded c topic sub msg timestamp (text payload) =
      let message : ReceiveMessage = record {
        topic = topic;
        payload = payload;
        qos = 0;
        retain = false;
        subscribed_topic = topic;
        timestamp = timestamp;
        was_encrypted = msg.was_encrypted;
        wire_encoding = msg.encoding;
        sender_timestamp = msg.timestamp;
      } in
      let done = run_job c (sub.token, message) in
      record { client = done.1; jobs = (sub.token, message) ∷ []; result = done.0 }
  run_decoded c topic sub msg timestamp unicode_decode_error = record {
    client = c;
    jobs = [];
    result = ok tt;
  }
  run_decoded c topic sub msg timestamp unknown_codec = record {
    client = c;
    jobs = [];
    result = ok tt;
  }

  unfoldable pub dispatch : Client → List ℕ → Subscription → DecodedMessage → ℕ → Outcome
  unfolding decode_payload run_decoded
  dispatch c topic sub msg timestamp =
      run_decoded c topic sub msg timestamp (decode_payload sub.encoding msg.payload)

  -- for sub in list(topic_sub.callbacks)
  unfoldable pub dispatch_callbacks :
      Client → List ℕ → List Subscription → DecodedMessage → ℕ → Outcome
  unfolding dispatch and_then
  dispatch_callbacks c topic [] msg timestamp = record { client = c; jobs = []; result = ok tt }
  dispatch_callbacks c topic (sub ∷ subs) msg timestamp =
      and_then (dispatch c topic sub msg timestamp)
        (λ d. dispatch_callbacks d topic subs msg timestamp)

  -- for topic_sub in list(subs)
  unfoldable pub dispatch_topics : Client → List ℕ → DecodedMessage → ℕ → Outcome
  unfolding dispatch_callbacks and_then
  dispatch_topics c [] msg timestamp = record { client = c; jobs = []; result = ok tt }
  dispatch_topics c (o ∷ os) msg timestamp =
      let topic_sub = object c o in
      and_then (dispatch_callbacks c topic_sub.topic topic_sub.callbacks msg timestamp)
        (λ d. dispatch_topics d os msg timestamp)

  -- `handle_datagram` from the look-up of the subscriptions on.
  unfoldable pub fan_out : Client → DecodedMessage → ℕ → Outcome
  unfolding siblings_of dispatch_topics
  fan_out c msg timestamp =
      if msg.encoding == encoding_raw
      then dispatch_topics c (siblings_of msg.topic_crc c.crc_index) msg timestamp
      else record { client = c; jobs = []; result = ok tt }

  -- The replay check, for encrypted packets.
  unfoldable pub check_replay : Client → ℕ → DecodedMessage → Bool × Client
  check_replay c now msg =
      if msg.was_encrypted
      then (let checked = accept c.replay now true msg.timestamp msg.nonce in
          (checked.0, record c { replay = checked.1 }))
      else (true, c)

  -- A `WireError` is logged; any other exception of `decode` goes on.
  unfoldable pub undecoded : Error → Client → Outcome
  undecoded wire_error c = record { client = c; jobs = []; result = ok tt }
  undecoded e c = record { client = c; jobs = []; result = raise e }

  -- The two readings of the clock are one number here.
  unfoldable pub handle_datagram : ℕ → Client → List ℕ → Outcome
  unfolding fan_out check_replay undecoded
  handle_datagram now c packet = elim (decode fast packet c.settings.key) [
    | raise e ↦ undecoded e c
    | ok msg ↦
        let checked = check_replay c now msg in
        if checked.0
        then fan_out checked.1 msg now
        else record { client = checked.1; jobs = []; result = ok tt }
  ]
