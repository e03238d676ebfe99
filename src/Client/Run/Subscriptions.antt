-- ===== src/Client/Run/Subscriptions.antt =====
-- `subscribe` and `unsubscribe` keep what their parts keep.
use esphome_multicast_pubsub.Prelude.{
  ℕ, Bool, Option, List, [], ◌∷◌, Result, Option-cases, Bool-cases, inl, inr, set,
}
use esphome_multicast_pubsub.Topic.{Hashes}
use esphome_multicast_pubsub.Rules.{TextArg}
use esphome_multicast_pubsub.Rules.Aio.{validate_topic}
use esphome_multicast_pubsub.Client.{Client, Network, Subscription, lookup}
use esphome_multicast_pubsub.Client.Publish.{group_for}
use esphome_multicast_pubsub.Client.Subscribe.{
  subscribe, subscribe_checked, is_encodable, join, join_group, append_callback, unsubscribe,
  forget_topic, object, is_callback, remove_callback,
}
use esphome_multicast_pubsub.Client.Run.Preserve.{if-both, group_for-preserves, Result-cases}

module _ {κ} (P : Client → Type κ)
    (keep_groups : (c : Client) (g : List (List ℕ × List ℕ))
      → P c
      → P (record c { groups = g })) where
  module _ (h : Hashes) (net : Network)
      (keep_join : (c : Client) (topic group : List ℕ) → P c → P (join_group h net c topic group).1)
      (keep_append : (c : Client) (o : ℕ) (encoding : Option ℕ)
        → P c
        → P (append_callback h net c o encoding)) where
    join-preserves : (c : Client) (topic : List ℕ) → P c → P (join h net c topic).1
    unfolding join
    join-preserves c topic p = elim (Bool-cases c.started) [
      | inr off ↦ simp (off, join) p
      | inl on ↦ elim (Result-cases (group_for h c topic)) [
        | inl (e, failed) ↦
            rw (failed, join) (if-both (λ (r : Result ℕ × Client). P r.1) c.started p p)
        | inr ((group, memo), found) ↦
            rw (found, join)
              (if-both (λ (r : Result ℕ × Client). P r.1) c.started
                (keep_join memo topic group (group_for-preserves P keep_groups h c topic found p))
                p)
      ]
    ]

    pub subscribe_checked-preserves :
        (c : Client) (topic : List ℕ) (encoding : Option ℕ)
        → P c
        → P (subscribe_checked h net c topic encoding).1
    unfolding subscribe_checked
    subscribe_checked-preserves c topic encoding p = elim (Option-cases (lookup topic c.subs)) [
      | inr (o, e) ↦ rw (e, subscribe_checked) (keep_append c o encoding p)
      | inl e ↦
          let q = join-preserves c topic p in
          elim (Result-cases (join h net c topic).0) [
            | inl (why, failed) ↦ rw (e, subscribe_checked) (rw failed q)
            | inr (o, joined) ↦
                rw (e, subscribe_checked)
                  (rw joined (keep_append (join h net c topic).1 o encoding q))
          ]
    ]

    pub subscribe-preserves :
        (is_codec : ℕ → Bool) (c : Client) (topic : TextArg) (encoding : Option ℕ)
        → P c
        → P (subscribe h net is_codec c topic encoding).1
    unfolding subscribe
    subscribe-preserves is_codec c topic encoding p = elim (Result-cases (validate_topic topic)) [
      | inl (e, failed) ↦ rw (failed, subscribe) p
      | inr (t, valid) ↦
          rw (valid, subscribe)
            (if-both (λ (r : Result ℕ × Client). P r.1) (is_encodable h net is_codec encoding)
              (subscribe_checked-preserves c t encoding p) p)
    ]

module _ {κ} (P : Client → Type κ) (net : Network)
    (keep_callbacks : (c : Client) (o : ℕ) (left : List Subscription)
      → P c
      → P (record c { objects = set c.objects o (record (object c o) { callbacks = left }) }))
    (keep_forget : (c : Client) (topic : List ℕ) (o : ℕ)
      → P c
      → P (forget_topic net c topic o)) where
  emptied-preserves {ℓ} :
      {A : Type ℓ} (left : List A) (c : Client) (topic : List ℕ) (o : ℕ)
      → P c
      → P (elim left [ [] ↦ forget_topic net c topic o | s ∷ ss ↦ c ])
  emptied-preserves [] c topic o p = keep_forget c topic o p
  emptied-preserves (s ∷ ss) c topic o p = p

  pub unsubscribe-preserves :
      (c : Client) (topic : List ℕ) (token : ℕ) → P c → P (unsubscribe net c topic token)
  unfolding unsubscribe
  unsubscribe-preserves c topic token p = elim (Option-cases (lookup topic c.subs)) [
    | inl e ↦ rw (e, unsubscribe) p
    | inr (o, e) ↦
        let topic_sub = object c o in
        let left = remove_callback token topic_sub.callbacks in
        let os = set c.objects o (record topic_sub { callbacks = left }) in
        rw (e, unsubscribe)
          (if-both P (is_callback token topic_sub.callbacks)
            (emptied-preserves left (record c { objects = os }) topic o (keep_callbacks c o left p))
            p)
  ]
