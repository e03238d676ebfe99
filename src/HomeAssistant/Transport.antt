-- ===== src/HomeAssistant/Transport.antt =====
-- `MpubsubClient` of custom_components/mpubsub/client.py. Its attributes are those of the client of
-- python/mpubsub/aio.py, so its state is that `Client`, with the configuration as the settings. The
-- cancel functions of `async_call_later` are numbered as timer handles are.
pub mod Subscribe
pub mod Receive
use esphome_multicast_pubsub.Prelude.{
  ℕ, zero, suc, ◌+◌, ◌-◌, ◌*◌, Bool, true, false, not, Option, none, some, List, [], ◌∷◌, ◌++◌,
  Result, ok, raise, runtime_error, os_error, ◌>>=◌, ◌==◌, if◌then◌else◌,
}
use esphome_multicast_pubsub.Prelude.Int.{ℤ, pos, negsuc, minus_one, eq_ℤ, ltb_ℤ, max_ℤ}
use esphome_multicast_pubsub.Aead.{FastCipher}
use esphome_multicast_pubsub.Topic.{Hashes, topic_to_group}
use esphome_multicast_pubsub.Wire.{Env, encode, encoding_raw}
use esphome_multicast_pubsub.Rules.{TextArg}
use esphome_multicast_pubsub.Rules.HomeAssistant.{validate_topic}
use esphome_multicast_pubsub.Client.{
  Client, Settings, Timer, Action, fire, tick, Network, discard, initial, is_falsy, lookup, insert,
  remove,
}
use esphome_multicast_pubsub.Client.Publish.{cancel, call_later, cancel_all, values}

abbrev pub retransmit_indefinite : ℤ
retransmit_indefinite = minus_one

pub record MpubsubConfig : Type 0 where
  pub port : ℕ
  pub scope : ℕ
  pub interface : Option (List ℕ)
  pub key : Option (List ℕ)
  pub hops : ℕ
  pub retransmit_count : ℤ
  pub retransmit_delay : ℕ
  pub promote_qos : Bool
  pub replay_window : ℕ

-- `__init__`
unfoldable pub new_client : MpubsubConfig → Client
new_client config =
    initial
      (record {
        scope = config.scope;
        key = config.key;
        retransmit_count = config.retransmit_count;
        retransmit_delay = config.retransmit_delay;
        promote_qos = config.promote_qos;
      })
      config.replay_window

-- QoS bumps the count up, never down.
unfoldable pub effective_retransmit_count : Settings → ℤ → ℤ
effective_retransmit_count config qos =
    let base = config.retransmit_count in
    if not config.promote_qos
    then base
    else if eq_ℤ qos (pos 0)
    then base
    else if eq_ℤ qos (pos 1)
    then (if eq_ℤ base retransmit_indefinite then retransmit_indefinite else max_ℤ base (pos 3))
    else retransmit_indefinite

unfoldable pub cancel_indefinite : Client → List ℕ → Client
unfolding cancel lookup remove
cancel_indefinite c topic = elim (lookup topic c.indefinite) [
  | none ↦ c
  | some h ↦ record c { indefinite = remove topic c.indefinite; timers = cancel h c.timers }
]

unfoldable pub start_indefinite : Client → List ℕ → List ℕ → List ℕ → Client
unfolding call_later insert
start_indefinite c topic group datagram =
    let delay = c.settings.retransmit_delay in
    record (call_later c delay (tick topic group datagram)) {
      indefinite = insert topic c.next_handle c.indefinite;
    }

unfoldable pub schedule_one : Client → ℕ → List ℕ → List ℕ → Client
unfolding call_later
schedule_one c after datagram group = record (call_later c after (fire datagram group)) {
  finite = c.next_handle ∷ c.finite;
}

-- for i in range(i, i + n): self._schedule_one(delay * i, data, group)
unfoldable pub schedule_range : Client → ℕ → ℕ → ℕ → List ℕ → List ℕ → Client
unfolding schedule_one
schedule_range c delay i zero datagram group = c
schedule_range c delay i (suc n) datagram group =
    schedule_range (schedule_one c (delay * i) datagram group) delay (i + 1) n datagram group

-- `_schedule_finite`. A negative count leaves the range empty.
unfoldable pub schedule_finite : Client → List ℕ → List ℕ → ℤ → Client
schedule_finite c group datagram (pos n) =
    schedule_range c c.settings.retransmit_delay 1 (n - 1) datagram group
schedule_finite c group datagram (negsuc n) = c

module _ (net : Network) where
  unfoldable pub sendto : Client → List ℕ → List ℕ → Client
  sendto c datagram group =
      if net.send datagram group
      then record c { sent = c.sent ++ (datagram, group) ∷ [] }
      else record c { send_failed = true }

  -- The end of `async_publish`.
  unfoldable pub schedule : Client → List ℕ → List ℕ → List ℕ → ℤ → Client
  schedule c topic group datagram count =
      if eq_ℤ count retransmit_indefinite
      then start_indefinite c topic group datagram
      else if ltb_ℤ (pos 1) count
      then schedule_finite c group datagram count
      else c

  -- `async_publish` from `_effective_retransmit_count` on.
  unfoldable pub transmit : Client → List ℕ → List ℕ → List ℕ → ℤ → Client
  transmit c topic group datagram qos =
      let count = effective_retransmit_count c.settings qos in
      schedule (sendto (cancel_indefinite c topic) datagram group) topic group datagram count

  -- `_fire` and `_tick`
  unfoldable pub run_action : Client → ℕ → Action → Client
  unfolding discard
  run_action c h (fire datagram group) =
      sendto (record c { finite = discard h c.finite }) datagram group
  run_action c h (tick topic group datagram) =
      start_indefinite (sendto c datagram group) topic group datagram

  unfoldable pub run_timer : Client → Timer → Client
  unfolding cancel
  run_timer c t = run_action (record c { timers = cancel t.handle c.timers }) t.handle t.action

module _ (h : Hashes) where
  unfoldable pub group_for : Client → List ℕ → Result (List ℕ × Client)
  unfolding lookup insert
  group_for c topic = elim (lookup topic c.groups) [
    | some group ↦ ok (group, c)
    | none ↦ do
      group ← topic_to_group h topic c.settings.scope
      ok (group, record c { groups = insert topic group c.groups })
  ]

  module _ (fast : Option FastCipher) (net : Network) (env : Env) where
    -- `async_publish` with a valid topic, on a started client.
    unfoldable pub publish_started : Client → List ℕ → List ℕ → ℤ → Result (Unit {0}) × Client
    publish_started c topic payload qos = elim (group_for c topic) [
      | raise e ↦ (raise e, c)
      | ok (group, memo) ↦
          let key = memo.settings.key in
          let timestamp = if is_falsy key then none else some env.now in
          elim (encode fast h env topic payload encoding_raw key timestamp none) [
            | raise e ↦ (raise e, memo)
            | ok datagram ↦ (ok tt, transmit net memo topic group datagram qos)
          ]
    ]

    -- The payload is bytes here. `retain` is only logged.
    unfoldable pub async_publish : Client → TextArg → List ℕ → ℤ → Result (Unit {0}) × Client
    unfolding publish_started
    async_publish c topic payload qos = elim (validate_topic topic) [
      | raise e ↦ (raise e, c)
      | ok t ↦ if c.started then publish_started c t payload qos else (raise runtime_error, c)
    ]

-- The socket is made and attached, or an `OSError` comes before any change. (An endpoint that fails
-- once the socket is made is left out.)
unfoldable pub async_start : Bool → Client → Result (Unit {0}) × Client
async_start made c =
    if made then (ok tt, record c { started = true; joined = [] }) else (raise os_error, c)

unfoldable pub async_stop : Client → Client
unfolding cancel_all values
async_stop c = record c {
  timers = cancel_all c.finite (cancel_all (values c.indefinite) c.timers);
  indefinite = [];
  finite = [];
  started = false;
  subs = [];
  crc_index = [];
  joined = [];
}
