-- ===== src/Tests/Rules.antt =====
-- The topic rules at one topic, and where they part.
use esphome_multicast_pubsub.Prelude.{
  ℕ, ◌≤◌, ◌<◌, ◌≡◌, ◌↔◌, refl, false, List, [], ◌∷◌, length, ok, raise, topic_error,
  unicode_encode_error, ◌⊎◌,
}
use esphome_multicast_pubsub.Topic.{utf8, has_surrogate}
use esphome_multicast_pubsub.Rules.{str, contains_code}
use esphome_multicast_pubsub.Rules.Aio
use esphome_multicast_pubsub.Rules.HomeAssistant
use esphome_multicast_pubsub.Rules.Component
use esphome_multicast_pubsub.Rules.Agree.{
  IsNulFirst, validators_agree, validate_topic_iff, wildcards_only_difference,
}
use esphome_multicast_pubsub.Tests.Data.{topic}

validators_agree_example :
    (HomeAssistant.validate_topic (str topic) ≡ Aio.validate_topic (str topic))
    ⊎ (IsNulFirst (str topic)
        × (HomeAssistant.validate_topic (str topic) ≡ raise topic_error)
        × (Aio.validate_topic (str topic) ≡ raise unicode_encode_error))
validators_agree_example = validators_agree (str topic)

-- A lone surrogate and a NUL.
abbrev lone : List ℕ
lone = 0xD800 ∷ 0 ∷ []

lone_at_home : HomeAssistant.validate_topic (str lone) ≡ raise topic_error
unfolding HomeAssistant.validate_topic
lone_at_home = refl

lone_in_client : Aio.validate_topic (str lone) ≡ raise unicode_encode_error
unfolding Aio.validate_topic
lone_in_client = refl

validate_topic_iff_example : (Aio.validate_topic (str topic) ≡ ok topic) ↔ (
    (topic ≡ topic)
    × (contains_code b'+' topic ≡ false)
    × (contains_code b'#' topic ≡ false)
    × (contains_code 0 topic ≡ false)
    × (has_surrogate topic ≡ false)
    × (0 < length (utf8 topic))
    × (length (utf8 topic) ≤ 200))
validate_topic_iff_example = validate_topic_iff topic topic

wildcards_only_difference_example : (Aio.validate_topic (str topic) ≡ ok topic) ↔ (
    (Component.topic_validator topic ≡ ok topic)
    × (contains_code b'+' topic ≡ false)
    × (contains_code b'#' topic ≡ false))
wildcards_only_difference_example = wildcards_only_difference topic

-- "a/#": a literal topic for the component, and refused by the client.
abbrev wild : List ℕ
wild = b'a' ∷ b'/' ∷ b'#' ∷ []

wild_in_component : Component.topic_validator wild ≡ ok wild
unfolding Component.topic_validator utf8
wild_in_component = refl

wild_in_client : Aio.validate_topic (str wild) ≡ raise topic_error
unfolding Aio.validate_topic
wild_in_client = refl
