-- ===== src/Client.antt =====
-- `MpubsubClient` of python/mpubsub/aio.py: its state, `__init__`, and what the other modules share.
-- Times are milliseconds of the event loop. Objects whose identity matters are numbered: a
-- `_TopicSub` is an index of `objects`, a `_Subscription` and a timer handle are numbers given out
-- once. The socket is what it was asked to do: the groups joined and the datagrams sent.
pub mod Publish
pub mod Subscribe
pub mod Receive
pub mod Run
use esphome_multicast_pubsub.Prelude.{
  ℕ, zero, suc, ◌+◌, ◌-◌, Bool, true, false, not, ◌&&◌, ◌||◌, Option, none, some, List, [], ◌∷◌,
  ◌++◌, Result, ok, raise, value_error, ◌>>=◌, ◌>>◌, raise_if, ltb, ◌==◌, if◌then◌else◌,
}
use esphome_multicast_pubsub.Prelude.Int.{ℤ, pos, minus_one, eq_ℤ, ltb_ℤ}
use esphome_multicast_pubsub.Topic.{Hashes, derive_key}
use esphome_multicast_pubsub.Wire.{bytes_eq}
use esphome_multicast_pubsub.Replay.{ReplayGuard}
use esphome_multicast_pubsub.Replay
use esphome_multicast_pubsub.Rules.{is_empty}
use esphome_multicast_pubsub.Rules.Aio.{ScopeArg, resolve_scope}

abbrev pub replay_cache_entries : ℕ
replay_cache_entries = 4096

-- -1
abbrev pub retransmit_indefinite : ℤ
retransmit_indefinite = minus_one

-- 1.0 s
abbrev pub min_indefinite_delay : ℕ
min_indefinite_delay = 1000

-- One caller's interest: its identity, and the codec of its payloads, if any.
pub record Subscription : Type 0 where
  pub token : ℕ
  pub encoding : Option ℕ

pub record TopicSub : Type 0 where
  pub topic : List ℕ
  pub crc : ℕ
  pub group : List ℕ
  pub callbacks : List Subscription

-- What a timer does when it fires: `fire` of `_schedule_one`, or `tick` of `_start_indefinite`.
pub data Action : Type 0 where
  fire : List ℕ → List ℕ → Action
  tick : List ℕ → List ℕ → List ℕ → Action

pub record Timer : Type 0 where
  pub handle : ℕ
  pub due : ℕ
  pub action : Action

pub record Settings : Type 0 where
  pub scope : ℕ
  pub key : Option (List ℕ)
  pub retransmit_count : ℤ
  pub retransmit_delay : ℕ
  pub promote_qos : Bool

pub record Client : Type 0 where
  pub settings : Settings
  pub started : Bool
  pub objects : List TopicSub
  pub subs : List (List ℕ × ℕ)
  pub crc_index : List (ℕ × List ℕ)
  pub groups : List (List ℕ × List ℕ)
  pub replay : ReplayGuard
  pub indefinite : List (List ℕ × ℕ)
  pub finite : List ℕ
  pub send_failed : Bool
  pub clock : ℕ
  pub next_handle : ℕ
  pub timers : List Timer
  pub next_token : ℕ
  pub joined : List (List ℕ)
  pub sent : List (List ℕ × List ℕ)

-- A dictionary by topic.
module _ {ℓ} {V : Type ℓ} where
  -- d.get(topic)
  unfoldable pub lookup : List ℕ → List (List ℕ × V) → Option V
  unfolding bytes_eq
  lookup k [] = none
  lookup k ((j, v) ∷ d) = if bytes_eq j k then some v else lookup k d

  -- d.pop(topic, None)
  unfoldable pub remove : List ℕ → List (List ℕ × V) → List (List ℕ × V)
  unfolding bytes_eq
  remove k [] = []
  remove k ((j, v) ∷ d) = let rest = remove k d in if bytes_eq j k then rest else (j, v) ∷ rest

  -- d[topic] = v
  unfoldable pub insert : List ℕ → V → List (List ℕ × V) → List (List ℕ × V)
  unfolding remove
  insert k v d = (k, v) ∷ remove k d

-- xs.discard(x), for a set of numbers
unfoldable pub discard : ℕ → List ℕ → List ℕ
discard h [] = []
discard h (x ∷ xs) = let rest = discard h xs in if x == h then rest else x ∷ rest

-- What the operating system answers: whether it takes a datagram to a group, and whether it joins
-- and leaves one. It fails with an `OSError`.
pub record Network : Type 0 where
  pub send : List ℕ → List ℕ → Bool
  pub join : List ℕ → Bool
  pub leave : List ℕ → Bool

-- The `key` argument: `None`, a passphrase, or the bytes themselves.
pub data KeyArg : Type 0 where
  no_key : KeyArg
  passphrase : List ℕ → KeyArg
  key_bytes : List ℕ → KeyArg

unfoldable pub resolve_key : Hashes → KeyArg → Option (List ℕ)
unfolding derive_key is_empty
resolve_key h no_key = none
resolve_key h (passphrase text) = if is_empty text then none else some (derive_key h text)
resolve_key h (key_bytes b) = some b

-- not self.key
abbrev pub is_falsy : Option (List ℕ) → Bool
is_falsy none = true
is_falsy (some []) = true
is_falsy (some (b ∷ key)) = false

-- The state that `__init__` leaves.
abbrev pub initial : Settings → ℕ → Client
initial settings replay_window = record {
  settings = settings;
  started = false;
  objects = [];
  subs = [];
  crc_index = [];
  groups = [];
  replay = Replay.init replay_window replay_cache_entries;
  indefinite = [];
  finite = [];
  send_failed = false;
  clock = 0;
  next_handle = 0;
  timers = [];
  next_token = 0;
  joined = [];
  sent = [];
}

unfoldable pub init : Hashes → ScopeArg → KeyArg → ℕ → ℤ → ℕ → Bool → Result Client
unfolding resolve_scope resolve_key
init h scope_arg key_arg replay_window retransmit_count retransmit_delay promote_qos = do
  scope ← resolve_scope scope_arg
  let key = resolve_key h key_arg
  raise_if
      (eq_ℤ retransmit_count retransmit_indefinite && ltb retransmit_delay min_indefinite_delay)
      value_error
  raise_if (eq_ℤ retransmit_count (pos 0) || ltb_ℤ retransmit_count retransmit_indefinite)
      value_error
  raise_if (not (replay_window == 0) && is_falsy key) value_error
  let settings : Settings = record {
    scope = scope;
    key = key;
    retransmit_count = retransmit_count;
    retransmit_delay = retransmit_delay;
    promote_qos = promote_qos;
  }
  ok (initial settings replay_window)
