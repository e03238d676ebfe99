-- ===== src/Tests/Client.antt =====
-- A client that is created, started, subscribed, and publishes and receives.
use esphome_multicast_pubsub.Prelude.{
  ℕ, ◌+◌, ◌-◌, ◌*◌, ◌≤◌, ◌<◌, ◌≡◌, refl, Bool, true, false, none, some, List, [], ◌++◌, All, length,
  get_or, ok, arith,
}
use esphome_multicast_pubsub.Prelude.Int.{pos}
use esphome_multicast_pubsub.Topic.{utf8, topic_crc32, topic_to_group}
use esphome_multicast_pubsub.Wire.{encode, decode, DecodedMessage}
use esphome_multicast_pubsub.Wire.RoundTrip.{received_plain, received_encrypted}
use esphome_multicast_pubsub.Replay.{accept, prune, record_fresh, init}
use esphome_multicast_pubsub.Replay.Invariant.{init-IsConsistent}
use esphome_multicast_pubsub.Rules.{str}
use esphome_multicast_pubsub.Rules.Aio.{nibble, validate_topic}
use esphome_multicast_pubsub.Client
use esphome_multicast_pubsub.Client.{
  Settings, Client, Timer, Network, fire, no_key, initial, key_bytes,
}
use esphome_multicast_pubsub.Client.Publish.{
  raw, publish, publish_started, group_for, encode_publication, start, stop, cancel_indefinite,
  effective_retransmit_count,
}
use esphome_multicast_pubsub.Client.Publish.Chains.{chains}
use esphome_multicast_pubsub.Client.Publish.Copies.{taken}
use esphome_multicast_pubsub.Client.Publish.Published.{publish-finite}
use esphome_multicast_pubsub.Client.Subscribe.{subscribe}
use esphome_multicast_pubsub.Client.Receive.{World, Delivery, admit, deliver, handle_datagram}
use esphome_multicast_pubsub.Client.Run.{Reachable, created, stepped, starts, publishes, subscribes}
use esphome_multicast_pubsub.Client.Run.Reached.{chains_at_most_once, stop_cancels_all}
use esphome_multicast_pubsub.Client.Run.Supersede.{publish-chains}
use esphome_multicast_pubsub.Client.Run.Duplicate.{duplicate_not_delivered, admitted-handle}
use esphome_multicast_pubsub.Client.Run.Delivered.{IsFrom, delivered-IsFrom}
use esphome_multicast_pubsub.Tests.Data.{hashes, key, nonce, env, topic, payload}
use esphome_multicast_pubsub.Tests.Wire.{plain, secret, received_plain_lem, received_secret}

-- Every call of the operating system succeeds; the callbacks do nothing.
abbrev pub net : Network
net = record { send = λ datagram group. true; join = λ group. true; leave = λ group. true }

abbrev world : World
world = record {
  hashes = hashes;
  fast = none;
  net = net;
  codec = λ encoding b. some b;
  react = λ token message. [];
}

abbrev pub codecs : ℕ → Bool
codecs codec = true

-- Three sends, a second apart; QoS 2 makes it an indefinite chain.
abbrev settings : Settings
settings = record {
  scope = 2;
  key = none;
  retransmit_count = pos 3;
  retransmit_delay = 1000;
  promote_qos = true;
}

abbrev new : Client
new = initial settings 0

new_lem : Client.init hashes (nibble 2) no_key 0 (pos 3) 1000 true ≡ ok new
unfolding Client.init
new_lem = refl

abbrev pub started : Client
started = (start true new).1

started-Reachable : Reachable hashes codecs started
started-Reachable =
    stepped (created (nibble 2) no_key 0 (pos 3) 1000 true new_lem) (starts true new)

abbrev thrice : Client
thrice = (publish hashes none net env started (str topic) (raw payload) (pos 0)).1

abbrev forever : Client
forever = (publish hashes none net env started (str topic) (raw payload) (pos 2)).1

thrice_returned :
    publish hashes none net env started (str topic) (raw payload) (pos 0) ≡ (ok tt, thrice)
unfolding publish publish_started group_for encode_publication encode topic_to_group start
    validate_topic
thrice_returned = refl

forever_returned :
    publish hashes none net env started (str topic) (raw payload) (pos 2) ≡ (ok tt, forever)
unfolding publish publish_started group_for encode_publication encode topic_to_group start
    validate_topic
forever_returned = refl

thrice-Reachable : Reachable hashes codecs thrice
thrice-Reachable =
    stepped started-Reachable (publishes world env started (str topic) (raw payload) (pos 0))

forever-Reachable : Reachable hashes codecs forever
forever-Reachable =
    stepped started-Reachable (publishes world env started (str topic) (raw payload) (pos 2))

publish-finite_example :
    (group : List ℕ) × (datagram : List ℕ) × (encode_publication hashes none net env started topic
        (raw payload)
      ≡ ok datagram)
    × (thrice.sent ≡ started.sent ++ taken net datagram group)
    × (resent : List Timer) × (thrice.timers ≡ (cancel_indefinite started topic).timers ++ resent)
    × (length resent ≡ 3 - 1)
    × ((i : ℕ) (t : Timer)
        → i < 3 - 1
        → get_or resent i t ≡ record {
          handle = started.next_handle + i;
          due = started.clock + started.settings.retransmit_delay * (1 + i);
          action = fire datagram group;
        })
unfolding effective_retransmit_count start
publish-finite_example =
    publish-finite hashes none net env started topic (raw payload) (pos 0) 3 thrice_returned refl

publish-chains_example : chains topic forever.timers ≡ 1
unfolding effective_retransmit_count start
publish-chains_example =
    publish-chains net hashes codecs none env topic (raw payload) (pos 2) started-Reachable
      forever_returned

chains_at_most_once_example : chains topic forever.timers ≤ 1
chains_at_most_once_example = chains_at_most_once hashes codecs topic forever-Reachable

stop_cancels_all_example : (stop thrice).timers ≡ []
stop_cancels_all_example = stop_cancels_all hashes codecs thrice-Reachable

-- A subscription, and the plaintext datagram of its topic.
abbrev pub subscribed : Client
subscribed = (subscribe hashes net codecs started (str topic) none).1

pub subscribed-Reachable : Reachable hashes codecs subscribed
subscribed-Reachable = stepped started-Reachable (subscribes net started (str topic) none)

abbrev pub plain_msg : DecodedMessage
plain_msg = received_plain (topic_crc32 hashes topic) 0 payload

pub plain_decoded : decode none plain subscribed.settings.key ≡ ok plain_msg
unfolding subscribe start decode validate_topic utf8 group_for topic_to_group
plain_decoded = received_plain_lem

plain_admitted : (admit world subscribed 1 plain_msg).0 ≡ true
unfolding admit
plain_admitted = refl

abbrev deliveries : List Delivery
deliveries = (deliver world (admit world subscribed 1 plain_msg).1 plain_msg).1

-- One subscription is called.
one_delivery : length deliveries ≡ 1
unfolding deliver admit subscribe start validate_topic utf8 group_for topic_to_group topic_crc32
one_delivery = refl

delivered-IsFrom_example : All (IsFrom world plain_msg) deliveries
delivered-IsFrom_example =
    delivered-IsFrom world codecs 1 plain subscribed-Reachable plain_decoded
      (admitted-handle world 1 subscribed plain plain_decoded plain_admitted)

-- A receiver with the key and replay protection, and the encrypted datagram.
abbrev guarded : Client
guarded =
    initial
      (record {
        scope = 2;
        key = some key;
        retransmit_count = pos 1;
        retransmit_delay = 100;
        promote_qos = false;
      })
      300

abbrev secret_msg : DecodedMessage
secret_msg = received_encrypted (topic_crc32 hashes topic) 0 payload 1_700_000_000 nonce

secret_admitted : (admit world guarded 1_700_000_010 secret_msg).0 ≡ true
unfolding admit accept prune record_fresh init
secret_admitted = refl

duplicate_not_delivered_example :
    (handle_datagram world 1_700_000_011
      (handle_datagram world 1_700_000_010 guarded secret).1
      secret).0
    ≡ ok []
unfolding init
duplicate_not_delivered_example =
    duplicate_not_delivered world guarded 1_700_000_010 1_700_000_011 secret
      (init-IsConsistent 300 4096) (omega arith) (omega arith) received_secret refl secret_admitted
      (omega arith)
