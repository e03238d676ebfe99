-- ===== src/HomeAssistant/Services.antt =====
-- The integration, custom_components/mpubsub/__init__.py: the entry's setup and unload, the public
-- functions and the service `mpubsub.publish`. `ConfigEntryNotReady` is a `HomeAssistantError`.
pub mod Caught
pub mod Errors
use mathlib.Core.Option
use esphome_multicast_pubsub.Prelude.{
  ℕ, Bool, true, false, not, ◌&&◌, Option, none, some, List, [], ◌∷◌, ◌++◌, ◌==◌, Result, ok, raise,
  Error, wire_error, value_error, unicode_encode_error, topic_error, home_assistant_error,
  recursion_error, ◌>>=◌, if◌then◌else◌, codes,
}
use esphome_multicast_pubsub.Prelude.Int.{ℤ, pos}
use esphome_multicast_pubsub.Topic.{Hashes}
use esphome_multicast_pubsub.Aead.{FastCipher}
use esphome_multicast_pubsub.Wire.{Env}
use esphome_multicast_pubsub.Rules.{TextArg, is_empty}
use esphome_multicast_pubsub.Client.{Client, Network}
use esphome_multicast_pubsub.HomeAssistant.Transport as Home
use esphome_multicast_pubsub.HomeAssistant.Options.{EntryData, Options, config_from_entry}

pub data Platform : Type 0 where
  binary_sensor sensor switch : Platform

-- The `mpubsub:` key of the YAML configuration: how many entries a platform has.
abbrev pub YamlConfig : Type 0
YamlConfig = Platform → ℕ

-- What the integration keeps in `hass`: the YAML configuration, the client, the platforms that were
-- forwarded to, and whether its two services are registered.
pub record Hass : Type 0 where
  pub yaml : Option YamlConfig
  pub client : Option Client
  pub config : YamlConfig
  pub has_services : Bool

abbrev pub no_config : YamlConfig
no_config platform = 0

unfoldable pub async_setup : Hass → Option YamlConfig → Hass
async_setup hass none = hass
async_setup hass (some conf) = record hass { yaml = some conf }

-- (platform for platform in … if yaml_config.get(platform.value))
unfoldable pub with_entries : YamlConfig → List Platform → List Platform
with_entries yaml_config [] = []
with_entries yaml_config (p ∷ platforms) =
    let rest = with_entries yaml_config platforms in if yaml_config p == 0 then rest else p ∷ rest

unfoldable pub platforms : YamlConfig → List Platform
unfolding with_entries
platforms yaml_config = with_entries yaml_config (binary_sensor ∷ sensor ∷ switch ∷ [])

unfoldable pub register_services : Hass → Hass
register_services hass = if hass.has_services then hass else record hass { has_services = true }

-- `async_setup_entry` after `async_start`.
unfoldable pub set_up : Hass → Result (Unit {0}) → Client → Result (List Platform) × Hass
unfolding register_services platforms
set_up hass (raise e) client = (raise home_assistant_error, hass)
set_up hass (ok done) client =
    let yaml_config = Option.get_or hass.yaml no_config in
    (
      ok (platforms yaml_config),
      register_services (record hass { client = some client; config = yaml_config }),
    )

-- With what the socket answers and the platforms that are set up.
unfoldable pub async_setup_entry :
    Hashes → Bool → Hass → EntryData → Options → Result (List Platform) × Hass
unfolding set_up
async_setup_entry h made hass entry options = elim (config_from_entry h entry options) [
  | raise e ↦ (raise e, hass)
  | ok config ↦
      let (started, client) = Home.async_start made (Home.new_client config) in
      set_up hass started client
]

-- `unloaded` is what `async_unload_platforms` answers. An entry that is not set up is not unloaded.
unfoldable pub async_unload_entry : Bool → Hass → Hass
async_unload_entry unloaded hass =
    if unloaded then record hass { client = none; has_services = false } else hass

unfoldable pub get_client : Hass → Result Client
get_client hass = elim hass.client [ none ↦ raise home_assistant_error | some client ↦ ok client ]

-- A payload: none, bytes, a text, or another object by its `str`.
pub data PublishPayload : Type 0 where
  no_payload : PublishPayload
  bytes : List ℕ → PublishPayload
  text : List ℕ → PublishPayload
  object : List ℕ → PublishPayload

-- `str.encode` with a codec: the bytes, a `LookupError`, or a `UnicodeEncodeError`, which is a
-- `ValueError`.
pub data Encoded : Type 0 where
  encoded : List ℕ → Encoded
  unknown_codec : Encoded
  unencodable : Encoded

-- encoding or DEFAULT_ENCODING
unfoldable pub codec_name : Option (List ℕ) → List ℕ
unfolding is_empty
codec_name none = codes "utf-8"
codec_name (some name) = if is_empty name then codes "utf-8" else name

-- except LookupError as err: raise ValueError
unfoldable pub as_value_error : Encoded → Result (List ℕ)
as_value_error (encoded b) = ok b
as_value_error unknown_codec = raise value_error
as_value_error unencodable = raise value_error

-- `ast.literal_eval`: a value, one of the exceptions that are caught, or a `RecursionError`.
pub data Literal : Type 0 where
  literal : PublishPayload → Literal
  malformed : Literal
  too_deep : Literal

pub record ServiceCall : Type 0 where
  pub topic : TextArg
  pub payload : Option PublishPayload
  pub evaluate_payload : Bool
  pub qos : ℤ

unfoldable pub evaluated : (List ℕ → Literal) → Bool → PublishPayload → Result PublishPayload
evaluated literal_eval true (text t) = elim (literal_eval t) [
  | literal value ↦ ok value
  | malformed ↦ raise home_assistant_error
  | too_deep ↦ raise recursion_error
]
evaluated literal_eval evaluate payload = ok payload

-- except (TopicError, ValueError) as err: raise HomeAssistantError. A `WireError` is a `ValueError`.
unfoldable pub as_service_error : Error → Error
as_service_error topic_error = home_assistant_error
as_service_error value_error = home_assistant_error
as_service_error wire_error = home_assistant_error
as_service_error unicode_encode_error = home_assistant_error
as_service_error why = why

unfoldable pub service_result : Result (Unit {0}) → Result (Unit {0})
unfolding as_service_error
service_result (ok done) = ok done
service_result (raise why) = raise (as_service_error why)

module _ (codec : List ℕ → List ℕ → Encoded) where
  unfoldable pub encode_payload : PublishPayload → Option (List ℕ) → Result (List ℕ)
  unfolding codec_name as_value_error
  encode_payload no_payload encoding = ok []
  encode_payload (bytes b) encoding = ok b
  encode_payload (text t) encoding = as_value_error (codec (codec_name encoding) t)
  encode_payload (object t) encoding = as_value_error (codec (codec_name encoding) t)

  module _ (h : Hashes) (fast : Option FastCipher) (net : Network) (env : Env) where
    -- `async_publish`; without a `qos` it is 0.
    unfoldable pub async_publish :
        Hass → TextArg → PublishPayload → Option ℤ → Option (List ℕ) → Result (Unit {0}) × Hass
    unfolding get_client encode_payload
    async_publish hass topic payload qos encoding = elim (get_client hass) [
      | raise e ↦ (raise e, hass)
      | ok client ↦ elim (encode_payload payload encoding) [
        | raise e ↦ (raise e, hass)
        | ok b ↦
            let (result, left) =
              Home.async_publish h fast net env client topic b (Option.get_or qos (pos 0)) in
            (result, record hass { client = some left })
      ]
    ]

    -- `_async_publish_service`
    unfoldable pub publish_service :
        (List ℕ → Literal) → Hass → ServiceCall → Result (Unit {0}) × Hass
    unfolding async_publish evaluated service_result
    publish_service literal_eval hass call =
        elim (evaluated literal_eval call.evaluate_payload (Option.get_or call.payload (text []))) [
          | raise e ↦ (raise e, hass)
          | ok payload ↦
              let (result, left) =
                async_publish hass call.topic payload (some call.qos) (some (codes "utf-8")) in
              (service_result result, left)
        ]

-- `async_wait_for_client`; `available` is that the client is started.
unfoldable pub wait_for_client : Hass → Bool
wait_for_client hass = elim hass.client [ none ↦ false | some client ↦ client.started ]
