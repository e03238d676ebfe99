-- ===== src/Client/Publish.antt =====
-- The sending half of `MpubsubClient`: `publish`, the retransmission timers, and `stop`.
pub mod Chains
pub mod Copies
pub mod Published
pub mod Listed
pub mod Tracked
use esphome_multicast_pubsub.Prelude.{
  ℕ, zero, suc, ◌+◌, ◌-◌, ◌*◌, Bool, true, false, not, Option, none, some, List, [], ◌∷◌, ◌++◌,
  Result, ok, raise, mpubsub_error, os_error, ◌>>=◌, ltb, ◌==◌, if◌then◌else◌,
}
use esphome_multicast_pubsub.Prelude.Int.{ℤ, pos, negsuc, eq_ℤ, ltb_ℤ, max_ℤ}
use esphome_multicast_pubsub.Aead.{FastCipher}
use esphome_multicast_pubsub.Topic.{Hashes, encode_utf8, topic_to_group}
use esphome_multicast_pubsub.Wire.{Env, encode, encoding_raw}
use esphome_multicast_pubsub.Rules.{TextArg, str}
use esphome_multicast_pubsub.Rules.Aio.{validate_topic}
use esphome_multicast_pubsub.Client.{
  Client, Network, discard, Settings, Timer, Action, fire, tick, retransmit_indefinite, is_falsy,
  lookup, insert, remove,
}

-- `payload` of `publish`: what `_to_bytes` distinguishes. A value that is neither `bytes` nor `str`
-- is given as its `str()`.
pub data Payload : Type 0 where
  nothing : Payload
  raw : List ℕ → Payload
  text : List ℕ → Payload

unfoldable pub to_bytes : Payload → Result (List ℕ)
unfolding encode_utf8
to_bytes nothing = ok []
to_bytes (raw b) = ok b
to_bytes (text t) = encode_utf8 t

-- QoS raises the count, and never lowers it.
unfoldable pub effective_retransmit_count : Settings → ℤ → ℤ
effective_retransmit_count s qos =
    let base = s.retransmit_count in
    if not s.promote_qos
    then base
    else if eq_ℤ qos (pos 0)
    then base
    else if eq_ℤ qos (pos 1)
    then (if eq_ℤ base retransmit_indefinite then retransmit_indefinite else max_ℤ base (pos 3))
    else retransmit_indefinite

-- handle.cancel(): the timer is no longer pending.
unfoldable pub cancel : ℕ → List Timer → List Timer
cancel h [] = []
cancel h (t ∷ timers) = let rest = cancel h timers in if t.handle == h then rest else t ∷ rest

-- loop.call_later(delay, action): the new timer has the handle that was next.
unfoldable pub call_later : Client → ℕ → Action → Client
call_later c delay action = record c {
  timers =
      c.timers ++ record { handle = c.next_handle; due = c.clock + delay; action = action } ∷ [];
  next_handle = c.next_handle + 1;
}

unfoldable pub cancel_indefinite : Client → List ℕ → Client
unfolding cancel lookup remove
cancel_indefinite c topic = elim (lookup topic c.indefinite) [
  | none ↦ c
  | some h ↦ record c { indefinite = remove topic c.indefinite; timers = cancel h c.timers }
]

unfoldable pub start_indefinite : Client → List ℕ → List ℕ → List ℕ → Client
unfolding call_later insert
start_indefinite c topic group datagram =
    record (call_later c c.settings.retransmit_delay (tick topic group datagram)) {
      indefinite = insert topic c.next_handle c.indefinite;
    }

unfoldable pub schedule_one : Client → ℕ → List ℕ → List ℕ → Client
unfolding call_later
schedule_one c delay datagram group = record (call_later c delay (fire datagram group)) {
  finite = c.next_handle ∷ c.finite;
}

-- for i in range(start, start + n): self._schedule_one(self.retransmit_delay * i, data, group)
unfoldable pub schedule_finite : Client → ℕ → ℕ → List ℕ → List ℕ → Client
unfolding schedule_one
schedule_finite c start zero datagram group = c
schedule_finite c start (suc n) datagram group =
    schedule_finite (schedule_one c (c.settings.retransmit_delay * start) datagram group)
      (start + 1) n datagram group

-- The number of retransmits, `len(range(1, count))`.
abbrev pub repeats : ℤ → ℕ
repeats (pos n) = n - 1
repeats (negsuc n) = 0

module _ (net : Network) where
  -- An error is only logged, loudly the first time.
  unfoldable pub sendto : Client → List ℕ → List ℕ → Client
  sendto c datagram group =
      if net.send datagram group
      then record c { sent = c.sent ++ (datagram, group) ∷ [] }
      else record c { send_failed = true }

  -- The end of `publish`: the timers for this count.
  unfoldable pub schedule : Client → List ℕ → List ℕ → List ℕ → ℤ → Client
  schedule c topic group datagram count =
      if eq_ℤ count retransmit_indefinite
      then start_indefinite c topic group datagram
      else if ltb_ℤ (pos 1) count
      then schedule_finite c 1 (repeats count) datagram group
      else c

  -- `publish` from `_effective_retransmit_count` on.
  unfoldable pub transmit : Client → List ℕ → List ℕ → List ℕ → ℤ → Client
  transmit c topic group datagram qos =
      schedule (sendto (cancel_indefinite c topic) datagram group) topic group datagram
        (effective_retransmit_count c.settings qos)

  unfoldable pub run_action : Client → ℕ → Action → Client
  unfolding discard
  run_action c h (fire datagram group) =
      sendto (record c { finite = discard h c.finite }) datagram group
  run_action c h (tick topic group datagram) =
      start_indefinite (sendto c datagram group) topic group datagram

  -- The event loop takes a timer off the pending ones and runs it.
  unfoldable pub run_timer : Client → Timer → Client
  unfolding cancel
  run_timer c t = run_action (record c { timers = cancel t.handle c.timers }) t.handle t.action

module _ (h : Hashes) where
  -- The group, and the client with the memo.
  unfoldable pub group_for : Client → List ℕ → Result (List ℕ × Client)
  unfolding lookup insert
  group_for c topic = elim (lookup topic c.groups) [
    | some group ↦ ok (group, c)
    | none ↦ do
      group ← topic_to_group h topic c.settings.scope
      ok (group, record c { groups = insert topic group c.groups })
  ]

  module _ (fast : Option FastCipher) (net : Network) where
    -- wire.encode(…), as `publish` calls it
    unfoldable pub encode_publication : Env → Client → List ℕ → Payload → Result (List ℕ)
    unfolding to_bytes
    encode_publication env c topic payload = do
      body ← to_bytes payload
      encode fast h env topic body encoding_raw c.settings.key
          (if is_falsy c.settings.key then none else some env.now) none

    -- `publish` with a valid topic, on a started client.
    unfoldable pub publish_started :
        Env → Client → List ℕ → Payload → ℤ → Result (Unit {0}) × Client
    publish_started env c topic payload qos = elim (group_for c topic) [
      | raise e ↦ (raise e, c)
      | ok (group, memo) ↦ elim (encode_publication env memo topic payload) [
        | raise e ↦ (raise e, memo)
        | ok datagram ↦ (ok tt, transmit net memo topic group datagram qos)
      ]
    ]

    -- The exception or the return, and the client that it leaves. `retain` is only logged.
    unfoldable pub publish : Env → Client → TextArg → Payload → ℤ → Result (Unit {0}) × Client
    unfolding publish_started
    publish env c topic payload qos = elim (validate_topic topic) [
      | raise e ↦ (raise e, c)
      | ok t ↦ if c.started then publish_started env c t payload qos else (raise mpubsub_error, c)
    ]

-- for handle in …: handle.cancel()
unfoldable pub cancel_all : List ℕ → List Timer → List Timer
unfolding cancel
cancel_all [] timers = timers
cancel_all (h ∷ handles) timers = cancel_all handles (cancel h timers)

-- d.values()
unfoldable pub values : List (List ℕ × ℕ) → List ℕ
values [] = []
values ((k, v) ∷ d) = v ∷ values d

-- Closing the socket leaves every group.
unfoldable pub stop : Client → Client
unfolding cancel_all values
stop c = record c {
  timers = cancel_all c.finite (cancel_all (values c.indefinite) c.timers);
  indefinite = [];
  finite = [];
  started = false;
  subs = [];
  crc_index = [];
  joined = [];
}

-- The socket is made and attached, or an `OSError` comes before any change. (An endpoint that fails
-- once the socket is made is left out.)
unfoldable pub start : Bool → Client → Result (Unit {0}) × Client
start made c =
    if made then (ok tt, record c { started = true; joined = [] }) else (raise os_error, c)
