-- ===== src/HomeAssistant/Agree.antt =====
-- The Home Assistant transport against the client of python/mpubsub/aio.py.
use esphome_multicast_pubsub.Prelude.{
  ℕ, zero, suc, ◌+◌, ◌-◌, ◌≡◌, ◌⊎◌, refl, sym, ap, ◌∙◌, Bool, true, Option, List, Result, ok, raise,
  Option-cases, Bool-cases, inl, inr, topic_error, unicode_encode_error,
}
use esphome_multicast_pubsub.Prelude.Int.{ℤ, pos, negsuc}
use esphome_multicast_pubsub.Aead.{FastCipher}
use esphome_multicast_pubsub.Topic.{Hashes}
use esphome_multicast_pubsub.Wire.{Env}
use esphome_multicast_pubsub.Rules.{TextArg}
use esphome_multicast_pubsub.Rules.Aio
use esphome_multicast_pubsub.Rules.HomeAssistant
use esphome_multicast_pubsub.Rules.Agree.{IsNulFirst, validators_agree}
use esphome_multicast_pubsub.Client.{Client, Settings, Timer, Network, lookup}
use esphome_multicast_pubsub.Client.Publish
use esphome_multicast_pubsub.Client.Publish.{raw}
use esphome_multicast_pubsub.Client.Subscribe
use esphome_multicast_pubsub.Client.Run.Preserve.{Result-cases, group_for-memo}
use esphome_multicast_pubsub.HomeAssistant.Transport
use esphome_multicast_pubsub.HomeAssistant.Transport.Subscribe as Home

effective_counts_agree :
    (s : Settings) (qos : ℤ)
    → Transport.effective_retransmit_count s qos ≡ Publish.effective_retransmit_count s qos
unfolding Transport.effective_retransmit_count Publish.effective_retransmit_count
effective_counts_agree s qos = refl

schedule_range_agrees :
    (c : Client) (i n : ℕ) (datagram group : List ℕ)
    → Transport.schedule_range c c.settings.retransmit_delay i n datagram group
      ≡ Publish.schedule_finite c i n datagram group
unfolding Transport.schedule_range Transport.schedule_one Publish.schedule_finite
    Publish.schedule_one Publish.call_later
schedule_range_agrees c i zero datagram group = refl
schedule_range_agrees c i (suc n) datagram group =
    schedule_range_agrees (Publish.schedule_one c _ datagram group) (i + 1) n datagram group

schedule_finite_agrees :
    (c : Client) (datagram group : List ℕ) (count : ℤ)
    → Transport.schedule_finite c group datagram count
      ≡ Publish.schedule_finite c 1 (Publish.repeats count) datagram group
unfolding Transport.schedule_finite Publish.schedule_finite
schedule_finite_agrees c datagram group (pos n) = schedule_range_agrees c 1 (n - 1) datagram group
schedule_finite_agrees c datagram group (negsuc n) = refl

transmits_agree :
    (net : Network) (c : Client) (topic group datagram : List ℕ) (qos : ℤ)
    → Transport.transmit net c topic group datagram qos
      ≡ Publish.transmit net c topic group datagram qos
unfolding Transport.transmit Transport.schedule Transport.sendto Transport.cancel_indefinite
    Transport.start_indefinite Publish.transmit Publish.schedule Publish.sendto
    Publish.cancel_indefinite Publish.start_indefinite Transport.effective_retransmit_count
    Publish.effective_retransmit_count
transmits_agree net c topic group datagram qos = simp schedule_finite_agrees

pub run_timers_agree :
    (net : Network) (c : Client) (t : Timer)
    → Transport.run_timer net c t ≡ Publish.run_timer net c t
unfolding Transport.run_timer Transport.run_action Transport.sendto Transport.start_indefinite
    Publish.run_timer Publish.run_action Publish.sendto Publish.start_indefinite
run_timers_agree net c t = refl

groups_agree :
    (h : Hashes) (c : Client) (topic : List ℕ)
    → Transport.group_for h c topic ≡ Publish.group_for h c topic
unfolding Transport.group_for Publish.group_for
groups_agree h c topic = refl

publish_started_agrees :
    (h : Hashes) (fast : Option FastCipher) (net : Network) (env : Env) (c : Client)
    (topic payload : List ℕ) (qos : ℤ)
    → Transport.publish_started h fast net env c topic payload qos
      ≡ Publish.publish_started h fast net env c topic (raw payload) qos
unfolding Transport.publish_started Publish.publish_started Publish.encode_publication
publish_started_agrees h fast net env c topic payload qos =
    elim (Result-cases (Publish.group_for h c topic)) [
      | inl (e, failed) ↦
          rw (groups_agree h c topic ∙ failed, Transport.publish_started)
            (rw (failed, Publish.publish_started) refl)
      | inr ((group, memo), found) ↦
          rw (groups_agree h c topic ∙ found, Transport.publish_started)
            (rw (found, Publish.publish_started)
              (elim (Result-cases
                (Publish.encode_publication h fast net env memo topic (raw payload))) [
                  | inl (e, failed) ↦ rw failed refl
                  | inr (datagram, encoded) ↦
                      rw encoded
                        (ap (λ d. (ok tt, d)) (transmits_agree net memo topic group datagram qos))
                ]))
    ]

-- What the two make of one call: the same result and state, or, for a topic with a NUL and a lone
-- surrogate, two exceptions and no change.
abbrev pub IsMatchingCall {ℓ} :
    {A : Type ℓ} → TextArg → Client → Result A × Client → Result A × Client → Type ℓ
IsMatchingCall topic c home client =
    (home ≡ client)
    ⊎ (IsNulFirst topic
        × (home ≡ (raise topic_error, c))
        × (client ≡ (raise unicode_encode_error, c)))

pub IsMatchingCall-state {ℓ} :
    {A : Type ℓ} (topic : TextArg) (c : Client) (home client : Result A × Client)
    → IsMatchingCall topic c home client
    → home.1 ≡ client.1
IsMatchingCall-state topic c home client (inl same) = ap (λ r. r.1) same
IsMatchingCall-state topic c home client (inr (nul, at_home, at_client)) =
    ap (λ r. r.1) at_home ∙ sym (ap (λ r. r.1) at_client)

-- A call that begins with the check of the topic.
abbrev validated {ℓ} :
    {A : Type ℓ} → Client → (List ℕ → Result A × Client) → Result (List ℕ) → Result A × Client
validated c goes_on checked = elim checked [ raise e ↦ (raise e, c) | ok t ↦ goes_on t ]

validated_agrees {ℓ} :
    {A : Type ℓ} (topic : TextArg) (c : Client) (at_home at_client : List ℕ → Result A × Client)
    → ((t : List ℕ) → at_home t ≡ at_client t)
    → IsMatchingCall topic c
        (validated c at_home (HomeAssistant.validate_topic topic))
        (validated c at_client (Aio.validate_topic topic))
validated_agrees topic c at_home at_client same = elim (validators_agree topic) [
  | inr (nul, home, client) ↦ inr (nul, rw home refl, rw client refl)
  | inl equal ↦ elim (Result-cases (Aio.validate_topic topic)) [
    | inl (e, failed) ↦ inl (rw (equal, failed) refl)
    | inr (t, valid) ↦ inl (rw (equal, valid) (same t))
  ]
]

-- On a started client, `async_publish` with bytes does what the client's `publish` does: the same
-- exception or return, the same datagrams, timers and memo; except that for a topic with a NUL and
-- a lone surrogate, where both leave the client as it is, the one may raise a `TopicError` and the
-- other a `UnicodeEncodeError`.
pub publish_agrees :
    (h : Hashes) (fast : Option FastCipher) (net : Network) (env : Env) (c : Client)
    (topic : TextArg) (payload : List ℕ) (qos : ℤ)
    → c.started ≡ true
    → IsMatchingCall topic c
        (Transport.async_publish h fast net env c topic payload qos)
        (Publish.publish h fast net env c topic (raw payload) qos)
unfolding Transport.async_publish Publish.publish
publish_agrees h fast net env c topic payload qos on =
    validated_agrees topic c _ _
      (λ t. simp on (publish_started_agrees h fast net env c t payload qos))

-- A call that leaves the client as it is.
refused-state {ℓ} :
    {A : Type ℓ} (c : Client) (goes_on : List ℕ → Result A × Client) (checked : Result (List ℕ))
    → ((t : List ℕ) → (goes_on t).1 ≡ c)
    → (validated c goes_on checked).1 ≡ c
refused-state c goes_on (raise e) still = refl
refused-state c goes_on (ok t) still = still t

-- Started or not, the same datagrams, timers and memo.
pub publish_states_agree :
    (h : Hashes) (fast : Option FastCipher) (net : Network) (env : Env) (c : Client)
    (topic : TextArg) (payload : List ℕ) (qos : ℤ)
    → (Transport.async_publish h fast net env c topic payload qos).1
      ≡ (Publish.publish h fast net env c topic (raw payload) qos).1
unfolding Transport.async_publish Publish.publish
publish_states_agree h fast net env c topic payload qos = elim (Bool-cases c.started) [
  | inl on ↦ IsMatchingCall-state topic c _ _ (publish_agrees h fast net env c topic payload qos on)
  | inr off ↦
      refused-state c _ (HomeAssistant.validate_topic topic) (λ t. simp off refl)
      ∙ sym (refused-state c _ (Aio.validate_topic topic) (λ t. simp off refl))
]

joins_agree :
    (h : Hashes) (net : Network) (c : Client) (topic : List ℕ)
    → c.started ≡ true
    → Home.async_join h net c topic ≡ Subscribe.join h net c topic
unfolding Home.async_join Subscribe.join Home.join_group Subscribe.join_group
joins_agree h net c topic on = elim (Result-cases (Publish.group_for h c topic)) [
  | inl (e, failed) ↦
      rw (groups_agree h c topic ∙ failed, Home.async_join)
        (rw (failed, Subscribe.join) (simp on refl))
  | inr ((group, memo), found) ↦
      let (g, same) = group_for-memo h c topic found in
      let still : memo.started ≡ true = ap (λ m. m.started) same ∙ on in
      rw (groups_agree h c topic ∙ found, Home.async_join)
        (rw (found, Subscribe.join) (simp (on, still) refl))
]

subscribe_valid_agrees :
    (h : Hashes) (net : Network) (c : Client) (topic : List ℕ) (encoding : Option ℕ)
    → c.started ≡ true
    → Home.subscribe_valid h net c topic encoding
      ≡ Subscribe.subscribe_checked h net c topic encoding
unfolding Home.subscribe_valid Subscribe.subscribe_checked Home.append_callback
    Subscribe.append_callback
subscribe_valid_agrees h net c topic encoding on =
    let appended : Result ℕ × Client → Result ℕ × Client = λ r. elim r.0 [
      | raise e ↦ (raise e, r.1)
      | ok o ↦ (ok r.1.next_token, Subscribe.append_callback h net r.1 o encoding)
    ] in
    elim (Option-cases (lookup topic c.subs)) [
      | inr (o, e) ↦ rw (e, Home.subscribe_valid) (rw (e, Subscribe.subscribe_checked) refl)
      | inl e ↦
          rw (e, Home.subscribe_valid)
            (rw (e, Subscribe.subscribe_checked) (ap appended (joins_agree h net c topic on)))
    ]

-- On a started client, `async_subscribe` does what the client's `subscribe` does with a codec that
-- there is.
pub subscribe_agrees :
    (h : Hashes) (net : Network) (is_codec : ℕ → Bool) (c : Client) (topic : TextArg)
    (encoding : Option ℕ)
    → c.started ≡ true
    → Subscribe.is_encodable h net is_codec encoding ≡ true
    → IsMatchingCall topic c
        (Home.async_subscribe h net c topic encoding)
        (Subscribe.subscribe h net is_codec c topic encoding)
unfolding Home.async_subscribe Subscribe.subscribe
subscribe_agrees h net is_codec c topic encoding on known =
    validated_agrees topic c _ _ (λ t. simp known (subscribe_valid_agrees h net c t encoding on))
