-- ===== src/HomeAssistant/Deliver.antt =====
-- The messages that the Home Assistant transport hands to its jobs.
use esphome_multicast_pubsub.Prelude.{
  ℕ, ◌≡◌, refl, Bool, false, Option, List, [], ◌∷◌, All, All-append, Result, ok, raise, arith, ◌==◌,
  Bool-cases, inl, inr,
}
use esphome_multicast_pubsub.Aead.{FastCipher}
use esphome_multicast_pubsub.Topic.{Hashes, topic_crc32}
use esphome_multicast_pubsub.Wire.{DecodedMessage, decode, encoding_raw}
use esphome_multicast_pubsub.Client.{Client, Subscription}
use esphome_multicast_pubsub.Client.Subscribe.{object, siblings_of}
use esphome_multicast_pubsub.Client.Run.Preserve.{if-both}
use esphome_multicast_pubsub.Client.Run.Matching.{IsOf, HasIndex, siblings-IsOf}
use esphome_multicast_pubsub.HomeAssistant.Transport.Receive.{
  Decoding, text, unicode_decode_error, unknown_codec, Job, Outcome, resume, and_then,
  decode_payload, run_decoded, dispatch, dispatch_callbacks, dispatch_topics, fan_out, check_replay,
  handle_datagram,
}

-- The message is the datagram's, and has the constants of a message without a broker.
abbrev pub IsReceived : Hashes → DecodedMessage → Job → Type 0
IsReceived h msg job =
    (topic_crc32 h job.1.topic ≡ msg.topic_crc)
    × (job.1.subscribed_topic ≡ job.1.topic)
    × (job.1.qos ≡ 0)
    × (job.1.retain ≡ false)
    × (job.1.was_encrypted ≡ msg.was_encrypted)
    × (job.1.wire_encoding ≡ encoding_raw)
    × (job.1.sender_timestamp ≡ msg.timestamp)

module _ (h : Hashes) (fast : Option FastCipher) (codec : ℕ → List ℕ → Decoding)
    (run_job : Client → Job → Result (Unit {0}) × Client)
    (keeps_topics : (c : Client) (job : Job) (crc : ℕ) (os : List ℕ)
      → All (IsOf h c.objects crc) os
      → All (IsOf h (run_job c job).1.objects crc) os) where
  -- The jobs so far are of the message, and the objects to come still have its CRC.
  abbrev IsSound : DecodedMessage → List ℕ → Outcome → Type 0
  IsSound msg os out =
      All (IsReceived h msg) out.jobs × All (IsOf h out.client.objects msg.topic_crc) os

  resume-IsSound :
      (msg : DecodedMessage) (os : List ℕ) (first rest : Outcome) (result : Result (Unit {0}))
      → IsSound msg os first
      → IsSound msg os rest
      → IsSound msg os (resume first rest result)
  unfolding resume
  resume-IsSound msg os first rest (raise e) p q = p
  resume-IsSound msg os first rest (ok _) p q =
      (All-append (IsReceived h msg) first.jobs rest.jobs p.0 q.0, q.1)

  run_decoded-IsSound :
      (msg : DecodedMessage) (os : List ℕ) (c : Client) (topic : List ℕ) (sub : Subscription)
      (timestamp : ℕ) (decoding : Decoding)
      → msg.encoding ≡ encoding_raw
      → topic_crc32 h topic ≡ msg.topic_crc
      → All (IsOf h c.objects msg.topic_crc) os
      → IsSound msg os (run_decoded fast codec run_job c topic sub msg timestamp decoding)
  unfolding run_decoded
  run_decoded-IsSound msg os c topic sub timestamp (text payload) raw e p =
      (((e, refl, refl, refl, refl, raw, refl), tt), keeps_topics c _ msg.topic_crc os p)
  run_decoded-IsSound msg os c topic sub timestamp unicode_decode_error raw e p = (tt, p)
  run_decoded-IsSound msg os c topic sub timestamp unknown_codec raw e p = (tt, p)

  dispatch_callbacks-IsSound :
      (msg : DecodedMessage) (os : List ℕ) (c : Client) (topic : List ℕ) (subs : List Subscription)
      (timestamp : ℕ)
      → msg.encoding ≡ encoding_raw
      → topic_crc32 h topic ≡ msg.topic_crc
      → All (IsOf h c.objects msg.topic_crc) os
      → IsSound msg os (dispatch_callbacks fast codec run_job c topic subs msg timestamp)
  unfolding dispatch_callbacks dispatch and_then
  dispatch_callbacks-IsSound msg os c topic [] timestamp raw e p = (tt, p)
  dispatch_callbacks-IsSound msg os c topic (sub ∷ subs) timestamp raw e p =
      let first = dispatch fast codec run_job c topic sub msg timestamp in
      let sound =
        run_decoded-IsSound msg os c topic sub timestamp
          (decode_payload fast codec run_job sub.encoding msg.payload) raw e p in
      resume-IsSound msg os first
        (dispatch_callbacks fast codec run_job first.client topic subs msg timestamp) first.result
        sound (dispatch_callbacks-IsSound msg os first.client topic subs timestamp raw e sound.1)

  dispatch_topics-IsSound :
      (msg : DecodedMessage) (os : List ℕ) (c : Client) (timestamp : ℕ)
      → msg.encoding ≡ encoding_raw
      → All (IsOf h c.objects msg.topic_crc) os
      → All (IsReceived h msg) (dispatch_topics fast codec run_job c os msg timestamp).jobs
  unfolding dispatch_topics and_then resume
  dispatch_topics-IsSound msg [] c timestamp raw p = tt
  dispatch_topics-IsSound msg (o ∷ os) c timestamp raw p =
      let t = object c o in
      let first = dispatch_callbacks fast codec run_job c t.topic t.callbacks msg timestamp in
      let sound = dispatch_callbacks-IsSound msg os c t.topic t.callbacks timestamp raw p.0.1 p.1 in
      let rest = dispatch_topics fast codec run_job first.client os msg timestamp in
      let later = dispatch_topics-IsSound msg os first.client timestamp raw sound.1 in
      (resume-IsSound msg [] first rest first.result (sound.0, tt) (later, tt)).0

  check_replay-HasIndex :
      (c : Client) (now : ℕ) (msg : DecodedMessage)
      → HasIndex h c
      → HasIndex h (check_replay fast codec run_job c now msg).1
  unfolding check_replay
  check_replay-HasIndex c now msg p =
      if-both (λ (r : Bool × Client). HasIndex h r.1) msg.was_encrypted p p

  -- With the index in order, every message that a datagram brings to a job is the decoded one: its
  -- topic has the datagram's CRC and is the subscribed one, its wire encoding is raw, it is neither
  -- retained nor of a quality of service, and it says truly whether and when it was sealed.
  pub home_delivered-IsReceived :
      (now : ℕ) (c : Client) (packet : List ℕ) {msg : DecodedMessage}
      → HasIndex h c
      → decode fast packet c.settings.key ≡ ok msg
      → All (IsReceived h msg) (handle_datagram fast codec run_job now c packet).jobs
  unfolding handle_datagram fan_out
  home_delivered-IsReceived now c packet {msg} p decoded =
      let checked = check_replay fast codec run_job c now msg in
      let index = check_replay-HasIndex c now msg p in
      rw (decoded, handle_datagram)
        (if-both (λ (out : Outcome). All (IsReceived h msg) out.jobs) checked.0
          (elim (Bool-cases (msg.encoding == encoding_raw)) [
            | inr other ↦ rw other tt
            | inl same ↦ rw same (
                dispatch_topics-IsSound msg (siblings_of msg.topic_crc checked.1.crc_index)
                  checked.1 now (ground (arith, same))
                  (siblings-IsOf h checked.1.objects msg.topic_crc checked.1.crc_index index))
          ])
          tt)
