-- ===== src/Client/Subscribe.antt =====
-- Subscriptions of `MpubsubClient`: `subscribe`, `_join` and `_unsubscribe`. Python's codecs are an
-- argument: whether a name is one.
use esphome_multicast_pubsub.Prelude.{
  ℕ, ◌+◌, Bool, true, false, ◌&&◌, ◌||◌, Option, none, some, List, [], ◌∷◌, ◌++◌, length, get_or,
  set, Result, ok, raise, mpubsub_error, os_error, lookup_error, ◌==◌, if◌then◌else◌,
}
use esphome_multicast_pubsub.Topic.{Hashes, topic_crc32}
use esphome_multicast_pubsub.Wire.{bytes_eq}
use esphome_multicast_pubsub.Rules.{TextArg}
use esphome_multicast_pubsub.Rules.Aio.{validate_topic}
use esphome_multicast_pubsub.Client.{
  Client, Subscription, TopicSub, Network, lookup, remove, insert,
}
use esphome_multicast_pubsub.Client.Publish.{group_for}

-- crc_index.get(crc), with an empty list for a missing one
unfoldable pub siblings_of : ℕ → List (ℕ × List ℕ) → List ℕ
siblings_of crc [] = []
siblings_of crc ((k, v) ∷ index) = if k == crc then v else siblings_of crc index

-- crc_index.pop(crc, None)
unfoldable pub drop_crc : ℕ → List (ℕ × List ℕ) → List (ℕ × List ℕ)
drop_crc crc [] = []
drop_crc crc ((k, v) ∷ index) =
    let rest = drop_crc crc index in if k == crc then rest else (k, v) ∷ rest

-- The list of a CRC becomes this one.
unfoldable pub put_crc : ℕ → List ℕ → List (ℕ × List ℕ) → List (ℕ × List ℕ)
unfolding drop_crc
put_crc crc v index = (crc, v) ∷ drop_crc crc index

-- sub in callbacks, by identity
unfoldable pub is_callback : ℕ → List Subscription → Bool
is_callback token [] = false
is_callback token (s ∷ callbacks) = s.token == token || is_callback token callbacks

-- callbacks.remove(sub)
unfoldable pub remove_callback : ℕ → List Subscription → List Subscription
remove_callback token [] = []
remove_callback token (s ∷ callbacks) =
    let rest = remove_callback token callbacks in if s.token == token then callbacks else s ∷ rest

-- xs.remove(x), guarded by `if x in xs`
unfoldable pub remove_first : ℕ → List ℕ → List ℕ
remove_first x [] = []
remove_first x (y ∷ ys) = let rest = remove_first x ys in if y == x then ys else y ∷ rest

-- The first of equal groups is left.
unfoldable pub leave_group : List ℕ → List (List ℕ) → List (List ℕ)
unfolding bytes_eq
leave_group g [] = []
leave_group g (x ∷ xs) = let rest = leave_group g xs in if bytes_eq x g then xs else x ∷ rest

-- What a number that is no object's stands for; the code never meets it.
abbrev pub no_object : TopicSub
no_object = record { topic = []; crc = 0; group = []; callbacks = [] }

abbrev pub object : Client → ℕ → TopicSub
object c o = get_or c.objects o no_object

module _ (h : Hashes) (net : Network) where
  -- `_join` after `_group_for`: the new object is the next number.
  unfoldable pub join_group : Client → List ℕ → List ℕ → Result ℕ × Client
  unfolding insert siblings_of put_crc
  join_group c topic group =
      let crc = topic_crc32 h topic in
      let o = length c.objects in
      if net.join group
      then (
        ok o,
        record c {
          objects =
              c.objects ++ record { topic = topic; crc = crc; group = group; callbacks = [] } ∷ [];
          subs = insert topic o c.subs;
          crc_index = put_crc crc (siblings_of crc c.crc_index ++ o ∷ []) c.crc_index;
          joined = c.joined ++ group ∷ [];
        },
      )
      else (raise os_error, c)

  unfoldable pub join : Client → List ℕ → Result ℕ × Client
  unfolding join_group
  join c topic =
      if c.started
      then elim (group_for h c topic) [
        | raise e ↦ (raise e, c)
        | ok (group, memo) ↦ join_group memo topic group
      ]
      else (raise mpubsub_error, c)

  -- topic_sub.callbacks.append(sub); the subscription's token stands for `unsubscribe`.
  unfoldable pub append_callback : Client → ℕ → Option ℕ → Client
  append_callback c o encoding =
      let sub : Subscription = record { token = c.next_token; encoding = encoding } in
      let topic_sub = object c o in
      record c {
        objects =
            set c.objects o (record topic_sub { callbacks = topic_sub.callbacks ++ sub ∷ [] });
        next_token = c.next_token + 1;
      }

  -- `subscribe` once its arguments are checked.
  unfoldable pub subscribe_checked : Client → List ℕ → Option ℕ → Result ℕ × Client
  unfolding join append_callback lookup
  subscribe_checked c topic encoding = elim (lookup topic c.subs) [
    | some o ↦ (ok c.next_token, append_callback c o encoding)
    | none ↦
        let (result, joined) = join c topic in
        elim result [
          | raise e ↦ (raise e, joined)
          | ok o ↦ (ok joined.next_token, append_callback joined o encoding)
        ]
  ]

  module _ (is_codec : ℕ → Bool) where
    -- "".encode(encoding)
    unfoldable pub is_encodable : Option ℕ → Bool
    is_encodable none = true
    is_encodable (some codec) = is_codec codec

    unfoldable pub subscribe : Client → TextArg → Option ℕ → Result ℕ × Client
    unfolding subscribe_checked is_encodable
    subscribe c topic encoding = elim (validate_topic topic) [
      | raise e ↦ (raise e, c)
      | ok t ↦
          if is_encodable encoding then subscribe_checked c t encoding else (raise lookup_error, c)
    ]

module _ (net : Network) where
  -- `_unsubscribe` after the last callback of a topic is gone.
  unfoldable pub forget_topic : Client → List ℕ → ℕ → Client
  unfolding remove siblings_of put_crc drop_crc remove_first leave_group
  forget_topic c topic o =
      let topic_sub = object c o in
      let siblings = remove_first o (siblings_of topic_sub.crc c.crc_index) in
      record c {
        subs = remove topic c.subs;
        crc_index = elim siblings [
          | [] ↦ drop_crc topic_sub.crc c.crc_index
          | s ∷ ss ↦ put_crc topic_sub.crc (s ∷ ss) c.crc_index
        ];
        joined =
            if c.started && net.leave topic_sub.group
            then leave_group topic_sub.group c.joined
            else c.joined;
      }

  unfoldable pub unsubscribe : Client → List ℕ → ℕ → Client
  unfolding lookup is_callback remove_callback forget_topic
  unsubscribe c topic token = elim (lookup topic c.subs) [
    | none ↦ c
    | some o ↦
        let topic_sub = object c o in
        if is_callback token topic_sub.callbacks
        then (let left = remove_callback token topic_sub.callbacks in
            let removed = record c {
              objects = set c.objects o (record topic_sub { callbacks = left });
            } in
            elim left [ [] ↦ forget_topic removed topic o | s ∷ ss ↦ removed ])
        else c
  ]
