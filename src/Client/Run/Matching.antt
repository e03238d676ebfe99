-- ===== src/Client/Run/Matching.antt =====
-- Which subscriptions a datagram reaches.
use mathlib.Core.Path.{subst}
use esphome_multicast_pubsub.Prelude.{
  ℕ, zero, suc, ◌+◌, ◌<◌, ◌≡◌, refl, ap, ◌∙◌, List, [], ◌∷◌, ◌++◌, All, All-append, length,
  length-append, length-set, get_or, get_or-append_left, get_or-append_right, set, Result, arith,
  ◌==◌, Bool-cases, inl, inr,
}
use esphome_multicast_pubsub.Topic.{Hashes, topic_crc32}
use esphome_multicast_pubsub.Client.{Client, Network, TopicSub, Subscription}
use esphome_multicast_pubsub.Client.Subscribe.{
  siblings_of, drop_crc, put_crc, remove_first, object, no_object, join_group, forget_topic,
}
use esphome_multicast_pubsub.Client.Publish.Chains.{All-map₁}
use esphome_multicast_pubsub.Client.Run.Preserve.{if-both}

module _ (h : Hashes) where
  -- An object whose topic has this CRC.
  abbrev pub IsOf : List TopicSub → ℕ → ℕ → Type 0
  IsOf objects crc o =
      (o < length objects) × (topic_crc32 h (get_or objects o no_object).topic ≡ crc)

  -- Every object stands in the index under the CRC of its topic.
  abbrev pub IsIndexed : List TopicSub → List (ℕ × List ℕ) → Type 0
  IsIndexed objects index = All (λ e. All (IsOf objects e.0) e.1) index

  abbrev pub HasIndex : Client → Type 0
  HasIndex c = IsIndexed c.objects c.crc_index

  pub siblings-IsOf :
      (objects : List TopicSub) (crc : ℕ) (index : List (ℕ × List ℕ))
      → IsIndexed objects index
      → All (IsOf objects crc) (siblings_of crc index)
  unfolding siblings_of
  siblings-IsOf objects crc [] p = tt
  siblings-IsOf objects crc ((k, os) ∷ index) p = elim (Bool-cases (k == crc)) [
    | inl same ↦
        let equal : k ≡ crc = ground (arith, same) in
        rw same (subst (λ x. All (IsOf objects x) os) equal p.0)
    | inr other ↦ rw other (siblings-IsOf objects crc index p.1)
  ]

  drop_crc-IsIndexed :
      (objects : List TopicSub) (crc : ℕ) (index : List (ℕ × List ℕ))
      → IsIndexed objects index
      → IsIndexed objects (drop_crc crc index)
  unfolding drop_crc
  drop_crc-IsIndexed objects crc [] p = tt
  drop_crc-IsIndexed objects crc ((k, os) ∷ index) p =
      let rest = drop_crc-IsIndexed objects crc index p.1 in
      if-both (IsIndexed objects) (k == crc) rest (p.0, rest)

  remove_first-IsOf :
      (objects : List TopicSub) (crc o : ℕ) (os : List ℕ)
      → All (IsOf objects crc) os
      → All (IsOf objects crc) (remove_first o os)
  unfolding remove_first
  remove_first-IsOf objects crc o [] p = tt
  remove_first-IsOf objects crc o (x ∷ os) p =
      if-both (All (IsOf objects crc)) (x == o) p.1 (p.0, remove_first-IsOf objects crc o os p.1)

  -- New callbacks leave the topics as they are.
  topic-set :
      (objects : List TopicSub) (o i : ℕ) (left : List Subscription)
      → (get_or
          (set objects o (record (get_or objects o no_object) { callbacks = left }))
          i
          no_object).topic
        ≡ (get_or objects i no_object).topic
  topic-set [] o i left = refl
  topic-set (x ∷ objects) zero zero left = refl
  topic-set (x ∷ objects) zero (suc i) left = refl
  topic-set (x ∷ objects) (suc o) zero left = refl
  topic-set (x ∷ objects) (suc o) (suc i) left = topic-set objects o i left

  pub set-IsOf :
      (objects : List TopicSub) (o : ℕ) (left : List Subscription) (crc : ℕ) (os : List ℕ)
      → All (IsOf objects crc) os
      → All (IsOf (set objects o (record (get_or objects o no_object) { callbacks = left })) crc) os
  set-IsOf objects o left crc os p =
      All-map₁
        (λ i q. (
          omega (
            arith,
            q.0,
            length-set objects o (record (get_or objects o no_object) { callbacks = left }),
          ),
          ap (topic_crc32 h) (topic-set objects o i left) ∙ q.1,
        ))
        os p

  pub set-IsIndexed :
      (objects : List TopicSub) (o : ℕ) (left : List Subscription) (index : List (ℕ × List ℕ))
      → IsIndexed objects index
      → IsIndexed (set objects o (record (get_or objects o no_object) { callbacks = left })) index
  set-IsIndexed objects o left index p = All-map₁ (λ e q. set-IsOf objects o left e.0 e.1 q) index p

  append-IsOf :
      (objects : List TopicSub) (t : TopicSub) (crc : ℕ) (os : List ℕ)
      → All (IsOf objects crc) os
      → All (IsOf (objects ++ t ∷ []) crc) os
  append-IsOf objects t crc os p =
      All-map₁
        (λ i q. (
          omega (arith, q.0, length-append objects (t ∷ [])),
          ap (λ s. topic_crc32 h s.topic) (get_or-append_left no_object objects (t ∷ []) i q.0)
              ∙ q.1,
        ))
        os p

  last-IsOf :
      (objects : List TopicSub) (t : TopicSub)
      → IsOf (objects ++ t ∷ []) (topic_crc32 h t.topic) (length objects)
  last-IsOf objects t =
      let end : length objects ≡ length objects + 0 = omega arith in
      let at_end : get_or (objects ++ t ∷ []) (length objects) no_object ≡ t =
        ap (λ i. get_or (objects ++ t ∷ []) i no_object) end
        ∙ get_or-append_right no_object objects (t ∷ []) 0 in
      (omega (arith, length-append objects (t ∷ [])), ap (λ s. topic_crc32 h s.topic) at_end)

  pub join_group-HasIndex :
      (net : Network) (c : Client) (topic group : List ℕ)
      → HasIndex c
      → HasIndex (join_group h net c topic group).1
  unfolding join_group put_crc
  join_group-HasIndex net c topic group p =
      let crc = topic_crc32 h topic in
      let t : TopicSub = record { topic = topic; crc = crc; group = group; callbacks = [] } in
      let objects = c.objects ++ t ∷ [] in
      let old : IsIndexed objects c.crc_index =
        All-map₁ (λ e q. append-IsOf c.objects t e.0 e.1 q) c.crc_index p in
      if-both (λ (r : Result ℕ × Client). HasIndex r.1) (net.join group)
        (
          All-append (IsOf objects crc) (siblings_of crc c.crc_index) (length c.objects ∷ [])
              (siblings-IsOf objects crc c.crc_index old) (last-IsOf c.objects t, tt),
          drop_crc-IsIndexed objects crc c.crc_index old,
        )
        p

  emptied-IsIndexed :
      (objects : List TopicSub) (crc : ℕ) (os : List ℕ) (index : List (ℕ × List ℕ))
      → All (IsOf objects crc) os
      → IsIndexed objects index
      → IsIndexed objects
          (elim os [ [] ↦ drop_crc crc index | s ∷ ss ↦ put_crc crc (s ∷ ss) index ])
  unfolding put_crc
  emptied-IsIndexed objects crc [] index p q = drop_crc-IsIndexed objects crc index q
  emptied-IsIndexed objects crc (s ∷ ss) index p q = (p, drop_crc-IsIndexed objects crc index q)

  pub forget_topic-HasIndex :
      (net : Network) (c : Client) (topic : List ℕ) (o : ℕ)
      → HasIndex c
      → HasIndex (forget_topic net c topic o)
  unfolding forget_topic
  forget_topic-HasIndex net c topic o p =
      let crc = (object c o).crc in
      let old = siblings_of crc c.crc_index in
      emptied-IsIndexed c.objects crc (remove_first o old) c.crc_index
        (remove_first-IsOf c.objects crc o old (siblings-IsOf c.objects crc c.crc_index p)) p
