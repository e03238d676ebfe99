-- ===== src/Tests/HomeAssistant.antt =====
-- The Home Assistant client and integration at concrete inputs.
use mathlib.Core.Option
use esphome_multicast_pubsub.Prelude.{
  ℕ, List, ◌≡◌, ◌≤◌, ◌↔◌, refl, sym, ap, true, false, none, some, [], All, ok,
}
use esphome_multicast_pubsub.Prelude.Int.{pos}
use esphome_multicast_pubsub.Rules.{str}
use esphome_multicast_pubsub.Client.Publish.{raw, publish, start}
use esphome_multicast_pubsub.Client.Publish.Chains.{chains}
use esphome_multicast_pubsub.Client.{Client}
use esphome_multicast_pubsub.Client.Run.{Reachable}
use esphome_multicast_pubsub.HomeAssistant.Refines.{
  HomeReachable, home_created, home_stepped, home_starts, home_publishes, any_codec, home_refines,
}
use esphome_multicast_pubsub.Client.Run.Delivered.{Reachable-HasIndex}
use esphome_multicast_pubsub.HomeAssistant.Transport.{
  MpubsubConfig, new_client, async_publish, async_start, async_stop,
}
use esphome_multicast_pubsub.HomeAssistant.Transport.Receive.{text, handle_datagram}
use esphome_multicast_pubsub.HomeAssistant.Agree.{IsMatchingCall, publish_agrees}
use esphome_multicast_pubsub.HomeAssistant.Deliver.{IsReceived, home_delivered-IsReceived}
use esphome_multicast_pubsub.HomeAssistant.Options.{
  EntryData, Options, config_from_entry, validate_options, is_given,
}
use esphome_multicast_pubsub.HomeAssistant.Options.Accepted.{init_with, accepted_iff}
use esphome_multicast_pubsub.HomeAssistant.Services as Services
use esphome_multicast_pubsub.HomeAssistant.Services.{
  Hass, ServiceCall, no_config, malformed, encoded, publish_service,
}
use esphome_multicast_pubsub.HomeAssistant.Services.Errors.{
  IsServiceResult, publish_service-IsServiceResult,
}
use esphome_multicast_pubsub.Tests.Data.{hashes, env, topic, payload}
use esphome_multicast_pubsub.Tests.Wire.{plain}
use esphome_multicast_pubsub.Tests.Client.{
  net, codecs, started, subscribed, subscribed-Reachable, plain_msg, plain_decoded,
}

publish_agrees_example :
    IsMatchingCall
      (str topic)
      started
      (async_publish hashes none net env started (str topic) payload (pos 2))
      (publish hashes none net env started (str topic) (raw payload) (pos 2))
unfolding start
publish_agrees_example = publish_agrees hashes none net env started (str topic) payload (pos 2) refl

-- An entry and options without any value, and what they stand for.
abbrev entry : EntryData
entry = record { port = none; scope = none; interface = none; encryption_key = none }

abbrev options : Options
options = record {
  hops = none;
  retransmit_count = none;
  retransmit_delay = none;
  promote_qos = none;
  replay_window = none;
}

abbrev config : MpubsubConfig
config = record {
  port = 18512;
  scope = 2;
  interface = none;
  key = none;
  hops = 1;
  retransmit_count = pos 1;
  retransmit_delay = 100;
  promote_qos = false;
  replay_window = 0;
}

config_made : config_from_entry hashes entry options ≡ ok config
unfolding config_from_entry
config_made = refl

accepted_iff_example :
    (validate_options options (is_given entry.encryption_key) ≡ [])
    ↔ (init_with hashes entry options ≡ ok (new_client config))
accepted_iff_example = accepted_iff hashes entry options config_made refl

-- A client of that entry, started, with one publication.
abbrev home : Client
home = (async_start true (new_client config)).1

abbrev published : Client
published = (async_publish hashes none net env home (str topic) payload (pos 0)).1

published-HomeReachable : HomeReachable hashes published
unfolding async_start validate_options
published-HomeReachable =
    home_stepped
      (home_stepped (home_created entry options config_made refl refl)
        (home_starts true (new_client config)))
      (home_publishes none net env home (str topic) payload (pos 0))

home_refines_example :
    Reachable hashes any_codec published
    × ((topic : List ℕ) → chains topic published.timers ≤ 1)
    × ((async_stop published).timers ≡ [])
home_refines_example = home_refines hashes published-HomeReachable

-- `hass` with a client that is started, and a call of the service.
abbrev hass : Hass
hass = record { yaml = none; client = some started; config = no_config; has_services = true }

abbrev call : ServiceCall
call = record {
  topic = str topic;
  payload = some (Services.text payload);
  evaluate_payload = false;
  qos = pos 0;
}

publish_service-IsServiceResult_example :
    IsServiceResult
      (publish_service (λ name t. encoded t) hashes none net env (λ t. malformed) hass call).0
unfolding start
publish_service-IsServiceResult_example =
    publish_service-IsServiceResult (λ name t. encoded t) hashes none net env (λ t. malformed) hass
      call (λ c e. ap (λ o. (Option.get_or o started).started) (sym e)) (λ t e. cc)

home_delivered-IsReceived_example :
    All
      (IsReceived hashes plain_msg)
      (handle_datagram none (λ name b. text b) (λ c job. (ok tt, c)) 1 subscribed plain).jobs
home_delivered-IsReceived_example =
    home_delivered-IsReceived hashes none (λ name b. text b) (λ c job. (ok tt, c))
      (λ c job crc os p. p) 1 subscribed plain
      (Reachable-HasIndex hashes codecs subscribed-Reachable) plain_decoded
