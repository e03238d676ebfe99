-- ===== src/Esphome/Codegen.antt =====
-- `to_code` of components/mpubsub/__init__.py. What it asks ESPHome's `cg` to generate is a list of
-- statements; the registry of message schemas in `CORE.data` is a dictionary that it takes and returns.
pub mod Generated
pub mod Registered
use esphome_multicast_pubsub.Prelude.{
  ℕ, Bool, true, false, Option, none, some, List, [], ◌∷◌, ◌++◌, Result, ok, raise, lookup_error,
  ◌>>=◌, if◌then◌else◌, codes, replace_code,
}
use esphome_multicast_pubsub.Prelude.Int.{ℤ}
use esphome_multicast_pubsub.Topic.{Hashes, utf8}
use esphome_multicast_pubsub.Rules.{is_empty}
use esphome_multicast_pubsub.Client.{lookup, insert}
use esphome_multicast_pubsub.Schema.{Message}
use esphome_multicast_pubsub.Schema.Struct.{emit_struct, pascal_case}
use esphome_multicast_pubsub.Esphome.Final.{Trigger, Encryption, Config}

pub data Statement : Type 0 where
  -- cg.add_global(cg.RawExpression(text))
  add_global : List ℕ → Statement
  -- cg.new_Pvariable(id), cg.register_component
  new_component : List ℕ → Statement
  set_port : ℕ → Statement
  set_scope : List ℕ → Statement
  set_hops : ℕ → Statement
  set_retransmit_count : ℤ → Statement
  set_retransmit_delay_ms : ℕ → Statement
  set_encryption_key : List ℕ → Statement
  set_replay_window : ℕ → Statement
  set_time : List ℕ → Statement
  -- a sensor's id, name, MQTT id and setter
  new_sensor : List ℕ → List ℕ → Option (List ℕ) → List ℕ → Statement
  -- a trigger's id, class, argument type, topic and require_encryption
  new_trigger : List ℕ → List ℕ → List ℕ → List ℕ → Bool → Statement

-- CORE.data[_SCHEMA_REGISTRY_KEY]
abbrev pub Registry : Type 0
Registry = List (List ℕ × Message)

unfoldable pub register_schema : Message → Registry → Registry
unfolding insert
register_schema m registry = insert m.id m registry

unfoldable pub lookup_message_schema : List ℕ → Registry → Option Message
unfolding lookup
lookup_message_schema id registry = lookup id registry

-- The header that the structs need.
unfoldable pub include_proto : List Message → List Statement
unfolding is_empty
include_proto messages =
    if is_empty messages
    then []
    else add_global (
        codes
          "#include \"esphome/components/api/proto.h\"\nstruct multicast_pubsub_force_proto_include_")
      ∷ []

-- The loop over the messages.
unfoldable pub add_messages :
    Hashes → (ℕ → List ℕ) → Registry → List Message → Result (Registry × List Statement)
unfolding register_schema
add_messages h upper registry [] = ok (registry, [])
add_messages h upper registry (m ∷ messages) = do
  text ← emit_struct h upper m
  (last, rest) ← add_messages h upper (register_schema m registry) messages
  ok (last, add_global text ∷ rest)

-- enc[CONF_TIME_ID], or a `KeyError`
unfoldable pub time_of : Encryption → Result (List ℕ)
time_of enc = elim enc.time_id [ none ↦ raise lookup_error | some id ↦ ok id ]

unfoldable pub add_replay_window : Encryption → Result (List Statement)
unfolding time_of
add_replay_window enc = elim enc.replay_window [
  | none ↦ ok []
  | some window ↦ time_of enc >>= λ id. ok (set_replay_window window ∷ set_time id ∷ [])
]

unfoldable pub add_encryption : Hashes → Option Encryption → Result (List Statement)
unfolding add_replay_window
add_encryption h none = ok []
add_encryption h (some enc) = do
  let digest = h.sha256 (utf8 enc.key)
  replay ← add_replay_window enc
  ok (set_encryption_key digest ∷ replay)

-- The four counters of a component, each with its setter.
abbrev pub counters : List (List ℕ × List ℕ)
counters =
    (codes "packets_sent", codes "set_packets_sent_sensor")
    ∷ (codes "packets_received", codes "set_packets_received_sensor")
    ∷ (codes "verify_ok", codes "set_verify_ok_sensor")
    ∷ (codes "verify_failed", codes "set_verify_failed_sensor")
    ∷ []

unfoldable pub add_sensors : Bool → List ℕ → List (List ℕ × List ℕ) → List Statement
add_sensors has_mqtt parent_slug [] = []
add_sensors has_mqtt parent_slug ((slug, setter) ∷ rest) =
    let id = parent_slug ++ b'_' ∷ slug in
    let mqtt_id = if has_mqtt then some (id ++ codes "_mqtt") else none in
    new_sensor id (replace_code b'_' (b' ' ∷ []) slug) mqtt_id setter
    ∷ add_sensors has_mqtt parent_slug rest

unfoldable pub add_trigger : (ℕ → List ℕ) → Trigger → Statement
unfolding pascal_case
add_trigger upper t = elim t.message [
  | none ↦
      new_trigger t.id (codes "OnMessageTrigger") (codes "std::vector<uint8_t>") t.topic
        t.require_encryption
  | some message ↦
      let class_name = pascal_case upper message in
      new_trigger t.id (codes "On" ++ class_name ++ codes "Trigger")
        (codes "messages::" ++ class_name) t.topic t.require_encryption
]

unfoldable pub add_triggers : (ℕ → List ℕ) → List Trigger → List Statement
unfolding add_trigger
add_triggers upper [] = []
add_triggers upper (t ∷ triggers) = add_trigger upper t ∷ add_triggers upper triggers

-- `has_mqtt` is `"mqtt" in CORE.loaded_integrations`.
unfoldable pub to_code :
    Hashes → (ℕ → List ℕ) → Bool → Registry → Config → Result (Registry × List Statement)
unfolding include_proto add_messages add_encryption add_sensors add_triggers
to_code h upper has_mqtt registry c = do
  (registered, structs) ← add_messages h upper registry c.messages
  encryption ← add_encryption h c.encryption
  ok (
    registered,
    include_proto c.messages
        ++ structs
        ++ (new_component c.id
            ∷ set_port c.port
            ∷ set_scope c.scope
            ∷ set_hops c.hops
            ∷ set_retransmit_count c.retransmit_count
            ∷ set_retransmit_delay_ms c.retransmit_delay
            ∷ [])
        ++ encryption
        ++ add_sensors has_mqtt c.id counters
        ++ add_triggers upper c.on_message,
  )
