-- ===== src/HomeAssistant/Refines.antt =====
-- States of the Home Assistant client as states of the client of python/mpubsub/aio.py.
use mathlib.Core.Path.{subst}
use mathlib.Core.Option
use esphome_multicast_pubsub.Prelude.{
  ℕ, ◌+◌, ◌≤◌, ◌<◌, ◌≡◌, refl, sym, ap, ◌∙◌, Bool, true, Option, none, some, List, [], length,
  get_or, ok,
}
use esphome_multicast_pubsub.Prelude.Int.{ℤ}
use esphome_multicast_pubsub.Aead.{FastCipher}
use esphome_multicast_pubsub.Topic.{Hashes}
use esphome_multicast_pubsub.Wire.{Env}
use esphome_multicast_pubsub.Rules.{TextArg}
use esphome_multicast_pubsub.Rules.Aio.{name, link_local}
use esphome_multicast_pubsub.Client.{Client, Network, passphrase}
use esphome_multicast_pubsub.Client.Publish.{raw, stop, start}
use esphome_multicast_pubsub.Client.Publish.Chains.{chains}
use esphome_multicast_pubsub.Client.Subscribe.{is_encodable}
use esphome_multicast_pubsub.Client.Receive.{World}
use esphome_multicast_pubsub.Client.Run.{
  Reachable, created, stepped, starts, stops, elapses, runs_timer, publishes, subscribes, no_timer,
}
use esphome_multicast_pubsub.Client.Run.Reached.{chains_at_most_once, stop_cancels_all}
use esphome_multicast_pubsub.HomeAssistant.Transport.{
  MpubsubConfig, new_client, async_start, async_stop, async_publish, run_timer,
}
use esphome_multicast_pubsub.HomeAssistant.Transport.Subscribe.{async_subscribe}
use esphome_multicast_pubsub.HomeAssistant.Agree.{
  IsMatchingCall-state, publish_states_agree, subscribe_agrees, run_timers_agree,
}
use esphome_multicast_pubsub.HomeAssistant.Options.{
  EntryData, Options, config_from_entry, validate_options, is_given, default_retransmit_count,
  default_retransmit_delay, default_promote_qos, default_replay_window,
}
use esphome_multicast_pubsub.HomeAssistant.Options.Accepted.{IsSelectable, accepted_iff}

-- The steps of the Home Assistant client but for receiving, unsubscribing, and subscribing before it
-- is started.
pub data HomeStep (h : Hashes) : Client → Client → Type 0 where
  home_starts : (made : Bool) (c : Client) → HomeStep h c (async_start made c).1
  home_stops : (c : Client) → HomeStep h c (async_stop c)
  home_elapses : (time : ℕ) (c : Client) → HomeStep h c (record c { clock = c.clock + time })
  home_runs_timer :
      (net : Network) (c : Client) (i : ℕ)
      → i < length c.timers
      → (get_or c.timers i no_timer).due ≤ c.clock
      → HomeStep h c (run_timer net c (get_or c.timers i no_timer))
  home_publishes :
      (fast : Option FastCipher) (net : Network) (env : Env) (c : Client) (topic : TextArg)
      (payload : List ℕ) (qos : ℤ)
      → HomeStep h c (async_publish h fast net env c topic payload qos).1
  home_subscribes :
      (net : Network) (c : Client) (topic : TextArg) (encoding : Option ℕ)
      → c.started ≡ true
      → HomeStep h c (async_subscribe h net c topic encoding).1

-- From an entry whose options the form accepts.
pub data HomeReachable (h : Hashes) : Client → Type 0 where
  home_created :
      (entry : EntryData) (o : Options) {config : MpubsubConfig}
      → config_from_entry h entry o ≡ ok config
      → IsSelectable (Option.get_or o.retransmit_count default_retransmit_count)
      → validate_options o (is_given entry.encryption_key) ≡ []
      → HomeReachable h (new_client config)
  home_stepped : {c d : Client} → HomeReachable h c → HomeStep h c d → HomeReachable h d

-- `async_subscribe` does not look a codec up: for the asyncio client, any codec is there.
abbrev pub any_codec : ℕ → Bool
any_codec codec = true

any_codec-encodable :
    (h : Hashes) (net : Network) (encoding : Option ℕ)
    → is_encodable h net any_codec encoding ≡ true
unfolding is_encodable
any_codec-encodable h net none = refl
any_codec-encodable h net (some codec) = refl

module _ (h : Hashes) where
  starts_agree : (made : Bool) (c : Client) → async_start made c ≡ start made c
  unfolding async_start start
  starts_agree made c = refl

  stops_agree : (c : Client) → async_stop c ≡ stop c
  unfolding async_stop stop
  stops_agree c = refl

  -- The same step of the other client.
  step_refines : {c d : Client} → Reachable h any_codec c → HomeStep h c d → Reachable h any_codec d
  step_refines r (home_starts made c) =
      subst (λ p. Reachable h any_codec p.1) (sym (starts_agree made c)) (stepped r (starts made c))
  step_refines r (home_stops c) =
      subst (Reachable h any_codec) (sym (stops_agree c)) (stepped r (stops c))
  step_refines r (home_elapses time c) = stepped r (elapses time c)
  step_refines r (home_runs_timer net c i pending due) =
      subst (Reachable h any_codec) (sym (run_timers_agree net c (get_or c.timers i no_timer)))
        (stepped r (runs_timer net c i pending due))
  step_refines r (home_publishes fast net env c topic payload qos) =
      let w : World = record {
        hashes = h;
        fast = fast;
        net = net;
        codec = λ encoding b. none;
        react = λ token message. [];
      } in
      subst (Reachable h any_codec) (sym (publish_states_agree h fast net env c topic payload qos))
        (stepped r (publishes w env c topic (raw payload) qos))
  step_refines r (home_subscribes net c topic encoding on) =
      subst (Reachable h any_codec)
        (sym (
          IsMatchingCall-state topic c _ _ (
            subscribe_agrees h net any_codec c topic encoding on
              (any_codec-encodable h net encoding))))
        (stepped r (subscribes net c topic encoding))

  reached : {c : Client} → HomeReachable h c → Reachable h any_codec c
  reached (home_created entry o made count accepted) =
      created (name (Option.get_or entry.scope link_local))
        (passphrase (Option.get_or entry.encryption_key []))
        (Option.get_or o.replay_window default_replay_window)
        (Option.get_or o.retransmit_count default_retransmit_count)
        (Option.get_or o.retransmit_delay default_retransmit_delay)
        (Option.get_or o.promote_qos default_promote_qos)
        ((accepted_iff h entry o made count).0 accepted)
  reached (home_stepped r step) = step_refines (reached r) step

  -- Every state that the Home Assistant client reaches from options that the form accepts, without
  -- receiving, unsubscribing or subscribing before it is started, is a state that the asyncio client
  -- reaches if every codec is known to it; in it at most one pending timer continues an indefinite
  -- chain for a topic, and stopping leaves no timer pending.
  pub home_refines :
      {c : Client}
      → HomeReachable h c
      → Reachable h any_codec c
        × ((topic : List ℕ) → chains topic c.timers ≤ 1)
        × ((async_stop c).timers ≡ [])
  home_refines r =
      let here = reached r in
      (
        here,
        λ topic. chains_at_most_once h any_codec topic here,
        ap (λ (c : Client). c.timers) (stops_agree _) ∙ stop_cancels_all h any_codec here,
      )
