-- ===== src/Rules/Agree.antt =====
-- The three topic rules against one another.
use esphome_multicast_pubsub.Prelude.{
  ℕ, ◌≤◌, ◌<◌, ◌≡◌, ◌⊎◌, inl, inr, ◌↔◌, refl, ◌∙◌, true, false, ◌||◌, List, [], ◌∷◌, ◌++◌, length,
  ok, raise, topic_error, unicode_encode_error, Bool-cases, arith, ◌==◌,
}
use esphome_multicast_pubsub.Topic.{utf8, utf8_char, has_surrogate}
use esphome_multicast_pubsub.Rules.{TextArg, str, other, contains_code}
use esphome_multicast_pubsub.Rules.Aio
use esphome_multicast_pubsub.Rules.HomeAssistant
use esphome_multicast_pubsub.Rules.Component

contains_code-append :
    (c : ℕ) (xs ys : List ℕ) → contains_code c (xs ++ ys) ≡ contains_code c xs || contains_code c ys
unfolding contains_code
contains_code-append c [] ys = refl
contains_code-append c (x ∷ xs) ys = ground (arith, contains_code-append c xs ys)

utf8_char-nul : (c : ℕ) → contains_code 0 (utf8_char c) ≡ c == 0
unfolding contains_code utf8_char
utf8_char-nul c = ground arith

-- Only the NUL character is encoded with a zero byte.
utf8-nul : (text : List ℕ) → contains_code 0 (utf8 text) ≡ contains_code 0 text
unfolding contains_code utf8
utf8-nul [] = refl
utf8-nul (c ∷ text) =
    contains_code-append 0 (utf8_char c) (utf8 text)
    ∙ ground (arith, utf8_char-nul c, utf8-nul text)

-- A topic that has both a NUL and a lone surrogate: Home Assistant's check finds the one first, and
-- the client's the other.
abbrev pub IsNulFirst : TextArg → Type 0
IsNulFirst topic =
    (text : List ℕ) × (topic ≡ str text)
    × (contains_code 0 text ≡ true)
    × (has_surrogate text ≡ true)

-- For every argument, Home Assistant's check and the client's return the same topic or raise the
-- same exception, though they look for NUL in the text and in its encoding; except that for a
-- topic with a NUL and a lone surrogate the one may raise a `TopicError` where the other raises a
-- `UnicodeEncodeError`.
pub validators_agree :
    (topic : TextArg)
    → (HomeAssistant.validate_topic topic ≡ Aio.validate_topic topic)
      ⊎ (IsNulFirst topic
          × (HomeAssistant.validate_topic topic ≡ raise topic_error)
          × (Aio.validate_topic topic ≡ raise unicode_encode_error))
unfolding Aio.validate_topic HomeAssistant.validate_topic
validators_agree other = inl refl
validators_agree (str topic) = elim (Bool-cases (has_surrogate topic)) [
  | inr clean ↦ inl (ground (arith, utf8-nul topic))
  | inl lone ↦ elim (Bool-cases (contains_code 0 topic)) [
    | inr no_nul ↦ inl (ground (arith, utf8-nul topic))
    | inl nul ↦ elim (Bool-cases (contains_code b'+' topic || contains_code b'#' topic)) [
      | inl wild ↦ inl (ground arith)
      | inr plain ↦ inr ((topic, refl, nul, lone), ground arith, ground arith)
    ]
  ]
]

-- A topic that the client accepts is returned as it is; it is accepted exactly if it has no `+`, no
-- `#`, no NUL and no lone surrogate, and its encoding has between 1 and 200 bytes.
pub validate_topic_iff :
    (topic result : List ℕ)
    → (Aio.validate_topic (str topic) ≡ ok result) ↔ (
        (result ≡ topic)
        × (contains_code b'+' topic ≡ false)
        × (contains_code b'#' topic ≡ false)
        × (contains_code 0 topic ≡ false)
        × (has_surrogate topic ≡ false)
        × (0 < length (utf8 topic))
        × (length (utf8 topic) ≤ 200))
unfolding Aio.validate_topic
validate_topic_iff topic result =
    (λ h. ground (arith, utf8-nul topic), λ h. ground (arith, utf8-nul topic))

-- The client accepts exactly the topics that the ESPHome component accepts and that have no MQTT
-- wildcard.
pub wildcards_only_difference :
    (topic : List ℕ)
    → (Aio.validate_topic (str topic) ≡ ok topic) ↔ (
        (Component.topic_validator topic ≡ ok topic)
        × (contains_code b'+' topic ≡ false)
        × (contains_code b'#' topic ≡ false))
unfolding Aio.validate_topic Component.topic_validator
wildcards_only_difference topic =
    (λ h. ground (arith, utf8-nul topic), λ h. ground (arith, utf8-nul topic))
