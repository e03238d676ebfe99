-- ===== src/HomeAssistant/Transport/Subscribe.antt =====
-- Subscriptions of the Home Assistant transport: `async_subscribe`, `_async_join`, `_join_group`,
-- `_leave_group` and `_unsubscribe`. `_Subscription` and `_TopicSub` are dataclasses and compare
-- field by field: a `HassJob` is of one subscription, so its number tells subscriptions apart, and
-- two `_TopicSub` are compared by all that they hold.
use esphome_multicast_pubsub.Prelude.{
  ℕ, Bool, true, false, ◌&&◌, Option, none, some, List, [], ◌∷◌, ◌++◌, length, set, Result, ok,
  raise, runtime_error, os_error, ◌+◌, ◌==◌, if◌then◌else◌,
}
use esphome_multicast_pubsub.Topic.{Hashes, topic_crc32}
use esphome_multicast_pubsub.Wire.{bytes_eq}
use esphome_multicast_pubsub.Rules.{TextArg}
use esphome_multicast_pubsub.Rules.HomeAssistant.{validate_topic}
use esphome_multicast_pubsub.Client.{
  Client, Subscription, TopicSub, Network, lookup, remove, insert,
}
use esphome_multicast_pubsub.Client.Subscribe.{
  siblings_of, drop_crc, put_crc, is_callback, remove_callback, leave_group, object,
}
use esphome_multicast_pubsub.HomeAssistant.Transport.{group_for}

-- callbacks == callbacks
unfoldable pub same_callbacks : List Subscription → List Subscription → Bool
same_callbacks [] [] = true
same_callbacks [] (t ∷ ts) = false
same_callbacks (s ∷ ss) [] = false
same_callbacks (s ∷ ss) (t ∷ ts) = s.token == t.token && same_callbacks ss ts

-- topic_sub == topic_sub
unfoldable pub same_sub : TopicSub → TopicSub → Bool
unfolding bytes_eq same_callbacks
same_sub s t =
    bytes_eq s.topic t.topic
    && s.crc == t.crc
    && bytes_eq s.group t.group
    && same_callbacks s.callbacks t.callbacks

-- if topic_sub in siblings: siblings.remove(topic_sub)
unfoldable pub remove_same : Client → TopicSub → List ℕ → List ℕ
unfolding same_sub
remove_same c t [] = []
remove_same c t (o ∷ os) =
    let rest = remove_same c t os in if same_sub (object c o) t then os else o ∷ rest

module _ (h : Hashes) (net : Network) where
  -- `_async_join` after `_group_for`.
  unfoldable pub join_group : Client → List ℕ → List ℕ → Result ℕ × Client
  unfolding insert siblings_of put_crc
  join_group c topic group =
      let crc = topic_crc32 h topic in
      let o = length c.objects in
      if net.join group
      then (
        ok o,
        record c {
          objects =
              c.objects ++ record { topic = topic; crc = crc; group = group; callbacks = [] } ∷ [];
          subs = insert topic o c.subs;
          crc_index = put_crc crc (siblings_of crc c.crc_index ++ o ∷ []) c.crc_index;
          joined = c.joined ++ group ∷ [];
        },
      )
      else (raise os_error, c)

  -- The group is looked up before the socket is asked for.
  unfoldable pub async_join : Client → List ℕ → Result ℕ × Client
  unfolding join_group
  async_join c topic = elim (group_for h c topic) [
    | raise e ↦ (raise e, c)
    | ok (group, memo) ↦
        if memo.started then join_group memo topic group else (raise runtime_error, memo)
  ]

  -- topic_sub.callbacks.append(sub)
  unfoldable pub append_callback : Client → ℕ → Option ℕ → Client
  append_callback c o encoding =
      let sub : Subscription = record { token = c.next_token; encoding = encoding } in
      let topic_sub = object c o in
      record c {
        objects =
            set c.objects o (record topic_sub { callbacks = topic_sub.callbacks ++ sub ∷ [] });
        next_token = c.next_token + 1;
      }

  unfoldable pub subscribe_valid : Client → List ℕ → Option ℕ → Result ℕ × Client
  unfolding async_join append_callback lookup
  subscribe_valid c topic encoding = elim (lookup topic c.subs) [
    | some o ↦ (ok c.next_token, append_callback c o encoding)
    | none ↦
        let (result, joined) = async_join c topic in
        elim result [
          | raise e ↦ (raise e, joined)
          | ok o ↦ (ok joined.next_token, append_callback joined o encoding)
        ]
  ]

  -- The codec is not looked up here.
  unfoldable pub async_subscribe : Client → TextArg → Option ℕ → Result ℕ × Client
  unfolding subscribe_valid
  async_subscribe c topic encoding = elim (validate_topic topic) [
    | raise e ↦ (raise e, c)
    | ok t ↦ subscribe_valid c t encoding
  ]

module _ (net : Network) where
  -- `_leave_group`: a failure is logged, and a stopped client has no group.
  unfoldable pub leave : Client → List ℕ → List (List ℕ)
  unfolding leave_group
  leave c group =
      if c.started
      then (if net.leave group then leave_group group c.joined else c.joined)
      else c.joined

  -- `_unsubscribe` after the last callback of a topic is gone.
  unfoldable pub forget_topic : Client → List ℕ → ℕ → Client
  unfolding remove siblings_of put_crc drop_crc remove_same leave
  forget_topic c topic o =
      let topic_sub = object c o in
      let siblings = remove_same c topic_sub (siblings_of topic_sub.crc c.crc_index) in
      record c {
        subs = remove topic c.subs;
        crc_index = elim siblings [
          | [] ↦ drop_crc topic_sub.crc c.crc_index
          | s ∷ ss ↦ put_crc topic_sub.crc (s ∷ ss) c.crc_index
        ];
        joined = leave c topic_sub.group;
      }

  unfoldable pub unsubscribe : Client → List ℕ → ℕ → Client
  unfolding lookup is_callback remove_callback forget_topic
  unsubscribe c topic token = elim (lookup topic c.subs) [
    | none ↦ c
    | some o ↦
        let topic_sub = object c o in
        if is_callback token topic_sub.callbacks
        then (let left = remove_callback token topic_sub.callbacks in
            let removed = record c {
              objects = set c.objects o (record topic_sub { callbacks = left });
            } in
            elim left [ [] ↦ forget_topic removed topic o | s ∷ ss ↦ removed ])
        else c
  ]
