-- ===== src/Esphome/Codegen/Registered.antt =====
-- What the registry of message schemas has after `to_code`, and which actions find theirs.
use esphome_multicast_pubsub.Prelude.{
  ℕ, ◌≡◌, refl, sym, ap, ◌∙◌, Bool, false, some, List, [], ◌∷◌, All, ok, arith, >>=-eq-ok,
}
use esphome_multicast_pubsub.Topic.{Hashes}
use esphome_multicast_pubsub.Wire.{bytes_eq}
use esphome_multicast_pubsub.Client.{lookup}
use esphome_multicast_pubsub.Client.Publish.Chains.{lookup-insert, lookup-insert_other}
use esphome_multicast_pubsub.Schema.{Message}
use esphome_multicast_pubsub.Schema.Struct.{emit_struct}
use esphome_multicast_pubsub.Esphome.Final.{Config}
use esphome_multicast_pubsub.Esphome.Messages.Accepted.{HaveDistinctIds, ok_eq}
use esphome_multicast_pubsub.Esphome.Codegen.{
  Registry, Statement, register_schema, lookup_message_schema, add_messages, add_encryption,
  to_code,
}

bytes_eq_comm : (a b : List ℕ) → bytes_eq a b ≡ bytes_eq b a
unfolding bytes_eq
bytes_eq_comm [] [] = refl
bytes_eq_comm [] (y ∷ b) = refl
bytes_eq_comm (x ∷ a) [] = refl
bytes_eq_comm (x ∷ a) (y ∷ b) = ground (arith, bytes_eq_comm a b)

-- The steps of `add_messages` on one more message.
add_messages_cons :
    (h : Hashes) (upper : ℕ → List ℕ) (registry : Registry) (m : Message) (messages : List Message)
    (result : Registry × List Statement)
    → add_messages h upper registry (m ∷ messages) ≡ ok result
    → (rest : List Statement) × (add_messages h upper (register_schema m registry) messages
        ≡ ok (result.0, rest))
unfolding add_messages
add_messages_cons h upper registry m messages result e =
    let (text, _, more) = >>=-eq-ok (emit_struct h upper m) _ e in
    let ((last, rest), done, same) =
      >>=-eq-ok (add_messages h upper (register_schema m registry) messages) _ more in
    (rest, done ∙ ap (λ (p : Registry × List Statement). ok (p.0, rest)) (ok_eq same))

-- Messages with other ids leave an entry as it is.
add_messages-lookup_other :
    (h : Hashes) (upper : ℕ → List ℕ) (registry : Registry) (id : List ℕ) (messages : List Message)
    (result : Registry × List Statement)
    → All (λ n. bytes_eq id n.id ≡ false) messages
    → add_messages h upper registry messages ≡ ok result
    → lookup id result.0 ≡ lookup id registry
unfolding add_messages register_schema
add_messages-lookup_other h upper registry id [] result others e =
    sym (ap (λ (p : Registry × List Statement). lookup id p.0) (ok_eq e))
add_messages-lookup_other h upper registry id (m ∷ messages) result (other, others) e =
    let (rest, more) = add_messages_cons h upper registry m messages result e in
    add_messages-lookup_other h upper (register_schema m registry) id messages (result.0, rest)
      others more
    ∙ lookup-insert_other m.id id m registry (bytes_eq_comm m.id id ∙ other)

registered :
    (h : Hashes) (upper : ℕ → List ℕ) (registry : Registry) (messages : List Message)
    (result : Registry × List Statement)
    → HaveDistinctIds messages
    → add_messages h upper registry messages ≡ ok result
    → All (λ m. lookup_message_schema m.id result.0 ≡ some m) messages
unfolding add_messages register_schema lookup_message_schema
registered h upper registry [] result distinct e = tt
registered h upper registry (m ∷ messages) result (others, distinct) e =
    let (rest, more) = add_messages_cons h upper registry m messages result e in
    (
      add_messages-lookup_other h upper (register_schema m registry) m.id messages (result.0, rest)
            others more
          ∙ lookup-insert m.id m registry,
      registered h upper (register_schema m registry) messages (result.0, rest) distinct more,
    )

-- When the messages have distinct ids, an action finds the schema of every one of them after the code
-- of the component has been generated, whatever the registry had before.
pub to_code-registers :
    (h : Hashes) (upper : ℕ → List ℕ) (has_mqtt : Bool) (registry : Registry) (c : Config)
    (result : Registry × List Statement)
    → HaveDistinctIds c.messages
    → to_code h upper has_mqtt registry c ≡ ok result
    → All (λ m. lookup_message_schema m.id result.0 ≡ some m) c.messages
unfolding to_code
to_code-registers h upper has_mqtt registry c result distinct e =
    let (pair, done, more) = >>=-eq-ok (add_messages h upper registry c.messages) _ e in
    let (_, _, last) = >>=-eq-ok (add_encryption h c.encryption) _ more in
    let all = registered h upper registry c.messages pair distinct done in
    rw (sym (ap (λ (p : Registry × List Statement). p.0) (ok_eq last))) all
