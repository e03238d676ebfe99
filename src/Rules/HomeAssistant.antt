-- ===== src/Rules/HomeAssistant.antt =====
-- `validate_topic`, `valid_topic` and `valid_encoding` of custom_components/mpubsub/util.py, with
-- `MAX_TOPIC_BYTES` and `WILDCARD_CHARS` of const.py.
use esphome_multicast_pubsub.Prelude.{
  ℕ, Bool, Option, none, some, List, [], ◌∷◌, length, Result, Error, ok, raise, topic_error,
  invalid, ◌>>=◌, ◌>>◌, raise_if, ltb, if◌then◌else◌,
}
use esphome_multicast_pubsub.Topic.{encode_utf8}
use esphome_multicast_pubsub.Rules.{TextArg, str, other, contains_code, is_empty}

abbrev pub max_topic_bytes : ℕ
max_topic_bytes = 200

abbrev pub wildcard_chars : List ℕ
wildcard_chars = b'+' ∷ b'#' ∷ []

unfoldable pub refuse_wildcards : List ℕ → List ℕ → Result (Unit {0})
unfolding contains_code
refuse_wildcards [] topic = ok tt
refuse_wildcards (c ∷ chars) topic = do
  raise_if (contains_code c topic) topic_error
  refuse_wildcards chars topic

unfoldable pub validate_topic : TextArg → Result (List ℕ)
unfolding refuse_wildcards is_empty encode_utf8
validate_topic other = raise topic_error
validate_topic (str topic) = do
  refuse_wildcards wildcard_chars topic
  raise_if (contains_code 0 topic) topic_error
  encoded ← encode_utf8 topic
  raise_if (is_empty encoded) topic_error
  raise_if (ltb max_topic_bytes (length encoded)) topic_error
  ok topic

-- except TopicError as err: raise vol.Invalid(str(err)) from err
unfoldable pub invalid_topic : Error → Error
invalid_topic topic_error = invalid
invalid_topic why = why

unfoldable pub valid_topic : TextArg → Result (List ℕ)
unfolding validate_topic invalid_topic
valid_topic value = elim (validate_topic value) [
  | ok topic ↦ ok topic
  | raise why ↦ raise (invalid_topic why)
]

-- A codec name or `None`; `codecs.lookup` is the argument.
unfoldable pub valid_encoding : (List ℕ → Bool) → Option TextArg → Result (Option (List ℕ))
valid_encoding lookup none = ok none
valid_encoding lookup (some other) = raise invalid
valid_encoding lookup (some (str codec)) = if lookup codec then ok (some codec) else raise invalid
