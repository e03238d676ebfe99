-- ===== src/HomeAssistant/Services/Caught.antt =====
-- The exceptions of the calls below the service `mpubsub.publish`.
use esphome_multicast_pubsub.Prelude.{
  ℕ, ◌≡◌, refl, Bool, true, false, not, Option, none, some, List, [], ◌∷◌, length, Result, ok,
  raise, Error, value_error, topic_error, unicode_encode_error, home_assistant_error, raise_if,
  ◌>>=◌, ◌>>◌, ltb, ◌==◌, if◌then◌else◌, ◌+◌,
}
use esphome_multicast_pubsub.Prelude.Int.{ℤ}
use esphome_multicast_pubsub.Topic.{
  Hashes, topic_to_group, utf8, encode_utf8, has_surrogate, is_valid_scope,
}
use esphome_multicast_pubsub.Aead.{FastCipher, aead_nonce_len}
use esphome_multicast_pubsub.Wire.{
  Env, encode, encode_encrypted, encoding_raw, is_known_encoding, aead_body_len, max_datagram,
  max_payload, header_len,
}
use esphome_multicast_pubsub.Rules.{TextArg, str, other, is_empty, contains_code}
use esphome_multicast_pubsub.Rules.HomeAssistant.{
  validate_topic, refuse_wildcards, max_topic_bytes, wildcard_chars,
}
use esphome_multicast_pubsub.Client.{Client, Network, lookup, is_falsy}
use esphome_multicast_pubsub.HomeAssistant.Transport as Home
use esphome_multicast_pubsub.HomeAssistant.Services.{as_service_error}

-- The exception of a call, if it has one, is one that the service turns into a `HomeAssistantError`.
abbrev pub IsCaught {ℓ} : {A : Type ℓ} → Result A → Type 0
IsCaught (ok a) = Unit
IsCaught (raise why) = as_service_error why ≡ home_assistant_error

raise_if-IsCaught :
    (test : Bool) (why : Error)
    → as_service_error why ≡ home_assistant_error
    → IsCaught (raise_if test why)
raise_if-IsCaught true why caught = caught
raise_if-IsCaught false why caught = tt

bind-IsCaught {ℓ κ} :
    {A : Type ℓ} {B : Type κ} (r : Result A) (next : A → Result B)
    → IsCaught r
    → ((a : A) → IsCaught (next a))
    → IsCaught (r >>= next)
bind-IsCaught (raise why) next first later = first
bind-IsCaught (ok a) next first later = later a

-- A test for a `ValueError`, and one for a `TopicError`.
value_IsCaught {ℓ} :
    {A : Type ℓ} (test : Bool) (rest : Result A)
    → IsCaught rest
    → IsCaught (raise_if test value_error >> rest)
unfolding as_service_error
value_IsCaught test rest caught =
    bind-IsCaught (raise_if test value_error) (λ _. rest) (raise_if-IsCaught test value_error refl)
      (λ _. caught)

topic_IsCaught {ℓ} :
    {A : Type ℓ} (test : Bool) (rest : Result A)
    → IsCaught rest
    → IsCaught (raise_if test topic_error >> rest)
unfolding as_service_error
topic_IsCaught test rest caught =
    bind-IsCaught (raise_if test topic_error) (λ _. rest) (raise_if-IsCaught test topic_error refl)
      (λ _. caught)

refuse_wildcards-IsCaught : (chars topic : List ℕ) → IsCaught (refuse_wildcards chars topic)
unfolding refuse_wildcards
refuse_wildcards-IsCaught [] topic = tt
refuse_wildcards-IsCaught (c ∷ chars) topic =
    topic_IsCaught (contains_code c topic) (refuse_wildcards chars topic)
      (refuse_wildcards-IsCaught chars topic)

encode_utf8-IsCaught : (text : List ℕ) → IsCaught (encode_utf8 text)
unfolding encode_utf8 as_service_error
encode_utf8-IsCaught text =
    elim (has_surrogate text)
      as (λ lone. IsCaught (if lone then raise unicode_encode_error else ok (utf8 text))) [
        | true ↦ refl
        | false ↦ tt
      ]

validate_topic-IsCaught : (topic : TextArg) → IsCaught (validate_topic topic)
unfolding validate_topic as_service_error
validate_topic-IsCaught other = refl
validate_topic-IsCaught (str topic) =
    bind-IsCaught (refuse_wildcards wildcard_chars topic) _
      (refuse_wildcards-IsCaught wildcard_chars topic)
      (λ _. topic_IsCaught (contains_code 0 topic) _ (
        bind-IsCaught (encode_utf8 topic) _ (encode_utf8-IsCaught topic) (λ encoded.
          topic_IsCaught (is_empty encoded) _
            (topic_IsCaught (ltb max_topic_bytes (length encoded)) (ok topic) tt))))

-- The exception of a result beside a state.
pub pair-IsCaught {ℓ κ μ} :
    {A : Type ℓ} {B : Type κ} {C : Type μ} (r : Result A) (fails : Error → Result B × C)
    (goes_on : A → Result B × C)
    → IsCaught r
    → ((e : Error) → as_service_error e ≡ home_assistant_error → IsCaught (fails e).0)
    → ((a : A) → r ≡ ok a → IsCaught (goes_on a).0)
    → let p : Result B × C = elim r [ raise e ↦ fails e | ok a ↦ goes_on a ] in IsCaught p.0
pair-IsCaught (raise e) fails goes_on caught first later = first e caught
pair-IsCaught (ok a) fails goes_on caught first later = later a refl

if-IsCaught {ℓ} :
    {A : Type ℓ} (test : Bool) (r s : Result A)
    → IsCaught r
    → IsCaught s
    → IsCaught (if test then r else s)
if-IsCaught true r s yields fails = yields
if-IsCaught false r s yields fails = fails

taken-IsCaught {ℓ κ} :
    {A : Type ℓ} {C : Type κ} (test : Bool) (r s : Result A × C)
    → test ≡ true
    → IsCaught r.0
    → IsCaught (if test then r else s).0
taken-IsCaught true r s e yields = yields
taken-IsCaught false r s e yields = cc

pub option-IsCaught {ℓ κ} :
    {A : Type ℓ} {B : Type κ} (o : Option A) (absent : Result B) (found : A → Result B)
    → IsCaught absent
    → ((a : A) → IsCaught (found a))
    → IsCaught (elim o [ none ↦ absent | some a ↦ found a ])
option-IsCaught none absent found first later = first
option-IsCaught (some a) absent found first later = later a

module _ (h : Hashes) where
  topic_to_group-IsCaught : (topic : List ℕ) (scope : ℕ) → IsCaught (topic_to_group h topic scope)
  unfolding topic_to_group as_service_error
  topic_to_group-IsCaught topic scope =
      if-IsCaught (is_valid_scope scope) _ (raise value_error) tt refl

  group_for-IsCaught : (c : Client) (topic : List ℕ) → IsCaught (Home.group_for h c topic)
  unfolding Home.group_for
  group_for-IsCaught c topic =
      option-IsCaught (lookup topic c.groups) _ _
        (bind-IsCaught (topic_to_group h topic c.settings.scope) _
          (topic_to_group-IsCaught topic c.settings.scope) (λ g. tt))
        (λ g. tt)

module _ (h : Hashes) (fast : Option FastCipher) (net : Network) (env : Env) where
  encode_encrypted-IsCaught :
      (crc : ℕ) (payload : List ℕ) (encoding : ℕ) (key : List ℕ) (now : ℕ) (nonce : List ℕ)
      → IsCaught (encode_encrypted fast crc payload encoding key now nonce)
  unfolding encode_encrypted
  encode_encrypted-IsCaught crc payload encoding key now nonce =
      value_IsCaught (not (length key == 32)) _ (
        value_IsCaught (not (length nonce == aead_nonce_len)) _
          (value_IsCaught (ltb max_datagram (header_len + aead_body_len (length payload))) _ tt))

  encode-IsCaught :
      (topic payload : List ℕ) (encoding : ℕ) (key : Option (List ℕ)) (now : Option ℕ)
      (n : Option (List ℕ))
      → IsCaught (encode fast h env topic payload encoding key now n)
  unfolding encode
  encode-IsCaught topic payload encoding none now n =
      value_IsCaught (ltb max_payload (length payload)) _
        (value_IsCaught (not (is_known_encoding encoding)) _ tt)
  encode-IsCaught topic payload encoding (some key) now n =
      value_IsCaught (ltb max_payload (length payload)) _ (
        value_IsCaught (not (is_known_encoding encoding)) _
          (encode_encrypted-IsCaught _ payload encoding key _ _))

  started-IsCaught :
      (c : Client) (topic payload : List ℕ) (qos : ℤ)
      → IsCaught (Home.publish_started h fast net env c topic payload qos).0
  unfolding Home.publish_started
  started-IsCaught c topic payload qos =
      pair-IsCaught (Home.group_for h c topic) _ _ (group_for-IsCaught h c topic)
        (λ e caught. caught)
        (λ found _.
          pair-IsCaught
            (encode fast h env topic payload encoding_raw found.1.settings.key
              (if is_falsy found.1.settings.key then none else some env.now) none)
            _ _ (encode-IsCaught topic payload encoding_raw _ _ none) (λ e caught. caught)
            (λ d _. tt))

  pub client-IsCaught :
      (c : Client) (topic : TextArg) (payload : List ℕ) (qos : ℤ)
      → c.started ≡ true
      → IsCaught (Home.async_publish h fast net env c topic payload qos).0
  unfolding Home.async_publish
  client-IsCaught c topic payload qos on =
      pair-IsCaught (validate_topic topic) _ _ (validate_topic-IsCaught topic) (λ e caught. caught)
        (λ t _. taken-IsCaught c.started _ _ on (started-IsCaught c t payload qos))
