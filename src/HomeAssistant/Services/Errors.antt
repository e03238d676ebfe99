-- ===== src/HomeAssistant/Services/Errors.antt =====
-- What the service `mpubsub.publish` raises.
use mathlib.Core.Option
use esphome_multicast_pubsub.Prelude.{
  ℕ, ◌≡◌, ◌≢◌, refl, sym, ap, Bool, true, false, Option, none, some, List, [], Result, ok, raise,
  Error, home_assistant_error, recursion_error, codes,
}
use esphome_multicast_pubsub.Prelude.Int.{ℤ, pos}
use esphome_multicast_pubsub.Topic.{Hashes}
use esphome_multicast_pubsub.Aead.{FastCipher}
use esphome_multicast_pubsub.Wire.{Env}
use esphome_multicast_pubsub.Rules.{TextArg}
use esphome_multicast_pubsub.Client.{Client, Network}
use esphome_multicast_pubsub.HomeAssistant.Services.Caught.{
  IsCaught, client-IsCaught, option-IsCaught, pair-IsCaught,
}
use esphome_multicast_pubsub.HomeAssistant.Services.{
  Hass, ServiceCall, Literal, literal, malformed, too_deep, Encoded, encoded, unknown_codec,
  unencodable, PublishPayload, no_payload, bytes, text, object, get_client, encode_payload,
  as_value_error, codec_name, as_service_error, service_result, evaluated, async_publish,
  publish_service,
}

-- The exception of a call, if it has one, is a `HomeAssistantError`.
abbrev pub IsServiceResult : Result (Unit {0}) → Type 0
IsServiceResult (ok a) = Unit
IsServiceResult (raise why) = why ≡ home_assistant_error

service_result-IsServiceResult :
    (r : Result (Unit {0})) → IsCaught r → IsServiceResult (service_result r)
unfolding service_result
service_result-IsServiceResult (ok a) caught = tt
service_result-IsServiceResult (raise why) caught = caught

after {ℓ} :
    {A : Type ℓ} (r : Result A) (goes_on : A → Result (Unit {0}) × Hass) (hass : Hass)
    → ((e : Error) → r ≡ raise e → e ≡ home_assistant_error)
    → ((a : A) → IsServiceResult (goes_on a).0)
    → let p : Result (Unit {0}) × Hass = elim r [ raise e ↦ (raise e, hass) | ok a ↦ goes_on a ] in
      IsServiceResult p.0
after (raise e) goes_on hass first later = first e refl
after (ok a) goes_on hass first later = later a

get_client-IsCaught : (hass : Hass) → IsCaught (get_client hass)
unfolding get_client as_service_error
get_client-IsCaught hass = option-IsCaught hass.client _ _ refl (λ c. tt)

as_value_error-IsCaught : (r : Encoded) → IsCaught (as_value_error r)
unfolding as_value_error as_service_error
as_value_error-IsCaught (encoded b) = tt
as_value_error-IsCaught unknown_codec = refl
as_value_error-IsCaught unencodable = refl

encode_payload-IsCaught :
    (codec : List ℕ → List ℕ → Encoded) (payload : PublishPayload) (encoding : Option (List ℕ))
    → IsCaught (encode_payload codec payload encoding)
unfolding encode_payload
encode_payload-IsCaught codec no_payload encoding = tt
encode_payload-IsCaught codec (bytes b) encoding = tt
encode_payload-IsCaught codec (text t) encoding =
    as_value_error-IsCaught (codec (codec_name encoding) t)
encode_payload-IsCaught codec (object t) encoding =
    as_value_error-IsCaught (codec (codec_name encoding) t)

got :
    (o : Option Client) {c : Client}
    → (let r : Result Client = elim o [ none ↦ raise home_assistant_error | some d ↦ ok d ] in
        r ≡ ok c)
    → o ≡ some c
got none e = cc
got (some d) e = ap (λ r. elim r [ ok x ↦ some x | raise why ↦ some d ]) e

literal_lem :
    (l : Literal) {e : Error}
    → l ≢ too_deep
    → (let r : Result PublishPayload = elim l [
      | literal value ↦ ok value
      | malformed ↦ raise home_assistant_error
      | too_deep ↦ raise recursion_error
    ] in
        r ≡ raise e)
    → e ≡ home_assistant_error
literal_lem (literal value) shallow raised = cc
literal_lem malformed shallow raised =
    sym (ap (λ r. elim r [ raise why ↦ why | ok value ↦ home_assistant_error ]) raised)
literal_lem too_deep shallow raised = absurd (shallow refl)

module _ (codec : List ℕ → List ℕ → Encoded) (h : Hashes) (fast : Option FastCipher) (net : Network)
    (env : Env) (literal_eval : List ℕ → Literal) (hass : Hass) where
  async_publish-IsCaught :
      (topic : TextArg) (payload : PublishPayload) (qos : Option ℤ) (encoding : Option (List ℕ))
      → ((c : Client) → hass.client ≡ some c → c.started ≡ true)
      → IsCaught (async_publish codec h fast net env hass topic payload qos encoding).0
  unfolding async_publish get_client
  async_publish-IsCaught topic payload qos encoding on =
      pair-IsCaught (get_client hass) _ _ (get_client-IsCaught hass) (λ e caught. caught)
        (λ c found.
          pair-IsCaught (encode_payload codec payload encoding) _ _
            (encode_payload-IsCaught codec payload encoding) (λ e caught. caught)
            (λ b _.
              client-IsCaught h fast net env c topic b (Option.get_or qos (pos 0))
                (on c (got hass.client found))))

  evaluated_lem :
      (evaluate : Bool) (payload : PublishPayload) {e : Error}
      → ((t : List ℕ) → literal_eval t ≢ too_deep)
      → evaluated literal_eval evaluate payload ≡ raise e
      → e ≡ home_assistant_error
  unfolding evaluated
  evaluated_lem false p shallow raised = cc
  evaluated_lem true no_payload shallow raised = cc
  evaluated_lem true (bytes b) shallow raised = cc
  evaluated_lem true (object t) shallow raised = cc
  evaluated_lem true (text t) shallow raised = literal_lem (literal_eval t) (shallow t) raised

  -- With a client that is started or none, and a `literal_eval` that raises no `RecursionError`, the
  -- service `mpubsub.publish` returns or raises a `HomeAssistantError`, whatever the topic, the
  -- payload, the codec and the network are.
  pub publish_service-IsServiceResult :
      (call : ServiceCall)
      → ((c : Client) → hass.client ≡ some c → c.started ≡ true)
      → ((t : List ℕ) → literal_eval t ≢ too_deep)
      → IsServiceResult (publish_service codec h fast net env literal_eval hass call).0
  unfolding publish_service
  publish_service-IsServiceResult call on shallow =
      after (evaluated literal_eval call.evaluate_payload (Option.get_or call.payload (text []))) _
        hass
        (λ e raised.
          evaluated_lem call.evaluate_payload (Option.get_or call.payload (text [])) shallow raised)
        (λ p.
          service_result-IsServiceResult _
            (async_publish-IsCaught call.topic p (some call.qos) (some (codes "utf-8")) on))
