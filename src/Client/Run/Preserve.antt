-- ===== src/Client/Run/Preserve.antt =====
-- What the parts of an operation keep, the operation keeps: for predicates on the client's state.
use mathlib.Core.Path.{subst}
use esphome_multicast_pubsub.Prelude.{
  ℕ, ◌≡◌, refl, sym, ◌∙◌, Bool, true, false, Option, none, some, List, [], ◌∷◌, Result, ok, raise,
  ◌>>=◌, >>=-eq-ok, Error, wire_error, value_error, topic_error, mpubsub_error, os_error,
  lookup_error, invalid, ◌⊎◌, inl, inr, Option-cases, ◌==◌, if◌then◌else◌, runtime_error,
  assertion_error, home_assistant_error, recursion_error, index_error, struct_error,
  unicode_encode_error,
}
use esphome_multicast_pubsub.Prelude.Int.{ℤ}
use esphome_multicast_pubsub.Aead.{FastCipher}
use esphome_multicast_pubsub.Topic.{Hashes, topic_to_group}
use esphome_multicast_pubsub.Wire.{Env, DecodedMessage, decode, encoding_raw}
use esphome_multicast_pubsub.Replay.{ReplayGuard, accept}
use esphome_multicast_pubsub.Rules.{TextArg}
use esphome_multicast_pubsub.Rules.Aio.{validate_topic}
use esphome_multicast_pubsub.Client.{Client, Subscription, Network, lookup, insert}
use esphome_multicast_pubsub.Client.Publish.{
  Payload, group_for, encode_publication, publish_started, publish, transmit,
}
use esphome_multicast_pubsub.Client.Subscribe.{unsubscribe, object, siblings_of}
use esphome_multicast_pubsub.Client.Receive.{
  World, Delivery, Call, call_unsubscribe, call_publish, run_calls, decoded_payload, dispatch,
  dispatch_callbacks, dispatch_topics, deliver, admit, refused, handle_datagram,
}

pub Result-cases {ℓ} :
    {A : Type ℓ} (r : Result A) → ((e : Error) × (r ≡ raise e)) ⊎ ((a : A) × (r ≡ ok a))
Result-cases (raise e) = inl (e, refl)
Result-cases (ok a) = inr (a, refl)

pub if-both {ℓ κ} :
    {A : Type ℓ} (Q : A → Type κ) (b : Bool) {x y : A} → Q x → Q y → Q (if b then x else y)
if-both Q true p q = p
if-both Q false p q = q

group_for-hit :
    (h : Hashes) (c : Client) (topic : List ℕ) {g : List ℕ}
    → lookup topic c.groups ≡ some g
    → group_for h c topic ≡ ok (g, c)
unfolding group_for
group_for-hit h c topic e = rw (e, group_for) refl

group_for-miss :
    (h : Hashes) (c : Client) (topic : List ℕ)
    → lookup topic c.groups ≡ none
    → group_for h c topic ≡ (
        topic_to_group h topic c.settings.scope >>= λ group.
        ok (group, record c { groups = insert topic group c.groups }))
unfolding group_for
group_for-miss h c topic e = rw (e, group_for) refl

-- A memo of a group is all that `_group_for` changes.
pub group_for-memo :
    (h : Hashes) (c : Client) (topic : List ℕ) {group : List ℕ} {memo : Client}
    → group_for h c topic ≡ ok (group, memo)
    → (g : List (List ℕ × List ℕ)) × (memo ≡ record c { groups = g })
group_for-memo h c topic e = elim (Option-cases (lookup topic c.groups)) [
  | inl absent ↦
      let (group, _, last) =
        >>=-eq-ok (topic_to_group h topic c.settings.scope)
          (λ group. ok (group, record c { groups = insert topic group c.groups }))
          (sym (group_for-miss h c topic absent) ∙ e) in
      (insert topic group c.groups, cc)
  | inr (g, found) ↦ let same = sym (group_for-hit h c topic found) ∙ e in (c.groups, cc)
]

module _ {κ} (P : Client → Type κ)
    (keep_groups : (c : Client) (g : List (List ℕ × List ℕ))
      → P c
      → P (record c { groups = g })) where
  pub group_for-preserves :
      (h : Hashes) (c : Client) (topic : List ℕ) {group : List ℕ} {memo : Client}
      → group_for h c topic ≡ ok (group, memo)
      → P c
      → P memo
  group_for-preserves h c topic e p =
      let (g, same) = group_for-memo h c topic e in subst P (sym same) (keep_groups c g p)

  module _ (h : Hashes) (fast : Option FastCipher) (net : Network)
      (keep_transmit : (c : Client) (topic group datagram : List ℕ) (qos : ℤ)
        → P c
        → P (transmit net c topic group datagram qos)) where
    publish_started-preserves :
        (env : Env) (c : Client) (topic : List ℕ) (payload : Payload) (qos : ℤ)
        → P c
        → P (publish_started h fast net env c topic payload qos).1
    unfolding publish_started
    publish_started-preserves env c topic payload qos p =
        elim (Result-cases (group_for h c topic)) [
          | inl (e, failed) ↦ rw (failed, publish_started) p
          | inr ((group, memo), found) ↦
              let q = group_for-preserves h c topic found p in
              elim (Result-cases (encode_publication h fast net env memo topic payload)) [
                | inl (e, failed) ↦ rw (found, publish_started) (rw failed q)
                | inr (datagram, encoded) ↦
                    rw (found, publish_started)
                      (rw encoded (keep_transmit memo topic group datagram qos q))
              ]
        ]

    pub publish-preserves :
        (env : Env) (c : Client) (topic : TextArg) (payload : Payload) (qos : ℤ)
        → P c
        → P (publish h fast net env c topic payload qos).1
    unfolding publish
    publish-preserves env c topic payload qos p = elim (Result-cases (validate_topic topic)) [
      | inl (e, failed) ↦ rw (failed, publish) p
      | inr (t, valid) ↦
          rw (valid, publish)
            (if-both (λ (r : Result (Unit {0}) × Client). P r.1) c.started
              (publish_started-preserves env c t payload qos p) p)
    ]

-- The receiving half keeps what publishing, unsubscribing and the guard's verdict keep.
module _ {κ} (P : Client → Type κ) (w : World)
    (keep_publish : (env : Env) (c : Client) (topic : TextArg) (payload : Payload) (qos : ℤ)
      → P c
      → P (publish w.hashes w.fast w.net env c topic payload qos).1)
    (keep_unsubscribe : (c : Client) (topic : List ℕ) (token : ℕ)
      → P c
      → P (unsubscribe w.net c topic token)) where
  pub run_calls-preserves : (c : Client) (calls : List Call) → P c → P (run_calls w c calls)
  unfolding run_calls
  run_calls-preserves c [] p = p
  run_calls-preserves c (call_unsubscribe topic token ∷ calls) p =
      run_calls-preserves (unsubscribe w.net c topic token) calls (keep_unsubscribe c topic token p)
  run_calls-preserves c (call_publish env topic payload qos ∷ calls) p =
      let published = publish w.hashes w.fast w.net env c topic payload qos in
      let q = keep_publish env c topic payload qos p in
      elim (Result-cases published.0) [
        | inl (e, raised) ↦ rw (raised, run_calls) q
        | inr (_, returned) ↦ rw (returned, run_calls) (run_calls-preserves published.1 calls q)
      ]

  dispatch-preserves :
      (c : Client) (topic : List ℕ) (sub : Subscription) (msg : DecodedMessage)
      → P c
      → P (dispatch w c topic sub msg).0
  unfolding dispatch
  dispatch-preserves c topic sub msg p = elim (Option-cases (decoded_payload w sub msg.payload)) [
    | inl e ↦ rw (e, dispatch) p
    | inr (payload, e) ↦ rw (e, dispatch) (run_calls-preserves c (w.react sub.token _) p)
  ]

  pub dispatch_callbacks-preserves :
      (c : Client) (topic : List ℕ) (subs : List Subscription) (msg : DecodedMessage)
      → P c
      → P (dispatch_callbacks w c topic subs msg).0
  unfolding dispatch_callbacks
  dispatch_callbacks-preserves c topic [] msg p = p
  dispatch_callbacks-preserves c topic (sub ∷ subs) msg p =
      dispatch_callbacks-preserves (dispatch w c topic sub msg).0 topic subs msg
        (dispatch-preserves c topic sub msg p)

  dispatch_topics-preserves :
      (c : Client) (os : List ℕ) (msg : DecodedMessage) → P c → P (dispatch_topics w c os msg).0
  unfolding dispatch_topics
  dispatch_topics-preserves c [] msg p = p
  dispatch_topics-preserves c (o ∷ os) msg p =
      let topic_sub = object c o in
      dispatch_topics-preserves (dispatch_callbacks w c topic_sub.topic topic_sub.callbacks msg).0
        os msg (dispatch_callbacks-preserves c topic_sub.topic topic_sub.callbacks msg p)

  pub deliver-preserves : (c : Client) (msg : DecodedMessage) → P c → P (deliver w c msg).0
  unfolding deliver
  deliver-preserves c msg p =
      if-both (λ (r : Client × List Delivery). P r.0) (msg.encoding == encoding_raw)
        (dispatch_topics-preserves c (siblings_of msg.topic_crc c.crc_index) msg p) p

  module _ (keep_replay : (c : Client) (g : ReplayGuard) → P c → P (record c { replay = g })) where
    pub admit-preserves :
        (c : Client) (now : ℕ) (msg : DecodedMessage) → P c → P (admit w c now msg).1
    unfolding admit
    admit-preserves c now msg p =
        if-both (λ (r : Bool × Client). P r.1) msg.was_encrypted
          (keep_replay c (accept c.replay now true msg.timestamp msg.nonce).1 p) p

    refused-preserves : (e : Error) (c : Client) → P c → P (refused w e c).1
    unfolding refused
    refused-preserves wire_error c p = p
    refused-preserves value_error c p = p
    refused-preserves topic_error c p = p
    refused-preserves mpubsub_error c p = p
    refused-preserves os_error c p = p
    refused-preserves runtime_error c p = p
    refused-preserves lookup_error c p = p
    refused-preserves assertion_error c p = p
    refused-preserves home_assistant_error c p = p
    refused-preserves recursion_error c p = p
    refused-preserves invalid c p = p
    refused-preserves index_error c p = p
    refused-preserves struct_error c p = p
    refused-preserves unicode_encode_error c p = p

    pub handle_datagram-preserves :
        (now : ℕ) (c : Client) (packet : List ℕ) → P c → P (handle_datagram w now c packet).1
    unfolding handle_datagram
    handle_datagram-preserves now c packet p =
        elim (Result-cases (decode w.fast packet c.settings.key)) [
          | inl (e, failed) ↦ rw (failed, handle_datagram) (refused-preserves e c p)
          | inr (msg, found) ↦
              let q = admit-preserves c now msg p in
              rw (found, handle_datagram)
                (if-both (λ (r : Result (List Delivery) × Client). P r.1) (admit w c now msg).0
                  (deliver-preserves (admit w c now msg).1 msg q) q)
        ]
