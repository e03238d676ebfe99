-- ===== src/Client/Run.antt =====
-- Every run of a client: its steps in any order, on any network, and the states that they reach.
pub mod Preserve
pub mod Timers
pub mod Delivered
pub mod Matching
pub mod Duplicate
pub mod Sending
pub mod Supersede
pub mod Subscriptions
pub mod Reached
use esphome_multicast_pubsub.Prelude.{
  ℕ, ◌+◌, ◌≤◌, ◌<◌, ◌≡◌, Bool, Option, List, [], Result, ok, length, get_or,
}
use esphome_multicast_pubsub.Prelude.Int.{ℤ}
use esphome_multicast_pubsub.Topic.{Hashes}
use esphome_multicast_pubsub.Wire.{Env}
use esphome_multicast_pubsub.Rules.{TextArg}
use esphome_multicast_pubsub.Rules.Aio.{ScopeArg}
use esphome_multicast_pubsub.Client.{Client, Timer, Action, fire, Network, KeyArg, init}
use esphome_multicast_pubsub.Client.Publish.{Payload, publish, run_timer, start, stop}
use esphome_multicast_pubsub.Client.Subscribe.{subscribe, unsubscribe}
use esphome_multicast_pubsub.Client.Receive.{World, handle_datagram}

abbrev pub no_timer : Timer
no_timer = record { handle = 0; due = 0; action = fire [] [] }

-- The world is fixed but for the network and the callbacks, which may do something else each time.
pub data Step (h : Hashes) (is_codec : ℕ → Bool) : Client → Client → Type 0 where
  starts : (made : Bool) (c : Client) → Step h is_codec c (start made c).1
  stops : (c : Client) → Step h is_codec c (stop c)
  elapses : (time : ℕ) (c : Client) → Step h is_codec c (record c { clock = c.clock + time })
  runs_timer :
      (net : Network) (c : Client) (i : ℕ)
      → i < length c.timers
      → (get_or c.timers i no_timer).due ≤ c.clock
      → Step h is_codec c (run_timer net c (get_or c.timers i no_timer))
  publishes :
      (w : World) (env : Env) (c : Client) (topic : TextArg) (payload : Payload) (qos : ℤ)
      → Step h is_codec c (publish h w.fast w.net env c topic payload qos).1
  subscribes :
      (net : Network) (c : Client) (topic : TextArg) (encoding : Option ℕ)
      → Step h is_codec c (subscribe h net is_codec c topic encoding).1
  unsubscribes :
      (net : Network) (c : Client) (topic : List ℕ) (token : ℕ)
      → Step h is_codec c (unsubscribe net c topic token)
  receives :
      (w : World) (now : ℕ) (c : Client) (packet : List ℕ)
      → w.hashes ≡ h
      → Step h is_codec c (handle_datagram w now c packet).1

pub data Reachable (h : Hashes) (is_codec : ℕ → Bool) : Client → Type 0 where
  created :
      (scope : ScopeArg) (key : KeyArg) (window : ℕ) (count : ℤ) (delay : ℕ) (promote : Bool)
      {c : Client}
      → init h scope key window count delay promote ≡ ok c
      → Reachable h is_codec c
  stepped : {c d : Client} → Reachable h is_codec c → Step h is_codec c d → Reachable h is_codec d
