-- ===== src/Esphome/Action/Declared.antt =====
-- A typed action for a message that the component's configuration declares.
use mathlib.Core.Option
use mathlib.Core.Path.{subst}
use esphome_multicast_pubsub.Prelude.{ℕ, ◌≡◌, ◌↔◌, sym, Bool, none, some, List, [], All, ok}
use esphome_multicast_pubsub.Topic.{Hashes}
use esphome_multicast_pubsub.Rules.Component.{Letters}
use esphome_multicast_pubsub.Client.Publish.Chains.{All-map₂}
use esphome_multicast_pubsub.Schema.{Message, validate}
use esphome_multicast_pubsub.Schema.Struct.Total.{Returns}
use esphome_multicast_pubsub.Esphome.Final.{Config}
use esphome_multicast_pubsub.Esphome.Messages.{messages_validator}
use esphome_multicast_pubsub.Esphome.Messages.Accepted.{messages_validator_sound, HaveDistinctIds}
use esphome_multicast_pubsub.Esphome.Codegen.{Registry, Statement, to_code}
use esphome_multicast_pubsub.Esphome.Codegen.Registered.{to_code-registers}
use esphome_multicast_pubsub.Esphome.Action.{PublishConfig, publish_action_to_code}
use esphome_multicast_pubsub.Esphome.Action.Fields.{AreFields, publish_typed_iff}

-- An action for the message has code exactly if its values are for fields of the message.
abbrev pub IsServed : (ℕ → List ℕ) → Registry → Message → Type 1
IsServed upper registry m =
    (V : Type 0) (config : PublishConfig V)
    → config.payload ≡ none
    → config.message ≡ some m.id
    → Returns (publish_action_to_code V upper registry config)
      ↔ AreFields m.fields (Option.get_or config.values [])

-- When the validators have accepted the declared messages and the component's code has been generated,
-- an action for any of them has code exactly if each of its values is for a field of that message.
pub accepted_action_iff :
    (l : Letters) (h : Hashes) (upper : ℕ → List ℕ) (has_mqtt : Bool) (registry : Registry)
    (c : Config) (messages : List Message) (result : Registry × List Statement)
    → messages_validator l messages ≡ ok c.messages
    → to_code h upper has_mqtt registry c ≡ ok result
    → All (IsServed upper result.0) c.messages
accepted_action_iff l h upper has_mqtt registry c messages result accepted generated =
    let (same, valid, distinct) = messages_validator_sound l messages c.messages accepted in
    let all_valid = subst (All (λ m. validate m ≡ ok tt)) (sym same) valid in
    let all_distinct = subst HaveDistinctIds (sym same) distinct in
    All-map₂
      (λ m v found V config raw message.
        publish_typed_iff upper result.0 config m.id m raw message found v)
      c.messages all_valid
      (to_code-registers h upper has_mqtt registry c result all_distinct generated)
