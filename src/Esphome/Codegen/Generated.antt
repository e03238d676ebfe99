-- ===== src/Esphome/Codegen/Generated.antt =====
-- When code is generated, and what the registry has then.
use esphome_multicast_pubsub.Prelude.{
  ℕ, ◌≡◌, ◌↔◌, refl, Bool, false, ◌&&◌, Option, none, some, List, [], ◌∷◌, All, ok, arith, ◌==◌,
  is_none, >>=-eq-ok,
}
use esphome_multicast_pubsub.Topic.{Hashes}
use esphome_multicast_pubsub.Schema.{Message, validate}
use esphome_multicast_pubsub.Schema.Struct.{emit_struct}
use esphome_multicast_pubsub.Schema.Struct.Total.{Returns, bind_Returns, emit_struct_iff}
use esphome_multicast_pubsub.Esphome.Final.{Encryption, Config, lacks_clock, final_validate}
use esphome_multicast_pubsub.Esphome.Codegen.{
  Registry, register_schema, add_messages, time_of, add_replay_window, add_encryption, to_code,
}

-- A window of zero without a clock, which `_final_validate` lets pass.
unfoldable pub is_stray_window : Option Encryption → Bool
is_stray_window none = false
is_stray_window (some enc) = elim enc.replay_window [
  | none ↦ false
  | some window ↦ window == 0 && is_none enc.time_id
]

add_messages-Returns :
    (h : Hashes) (upper : ℕ → List ℕ) (registry : Registry) (messages : List Message)
    → All (λ m. validate m ≡ ok tt) messages
    → Returns (add_messages h upper registry messages)
unfolding add_messages
add_messages-Returns h upper registry [] valid = (_, refl)
add_messages-Returns h upper registry (m ∷ messages) (first, valid) =
    bind_Returns (emit_struct h upper m) _ ((emit_struct_iff h upper m).1 first) (λ text.
      bind_Returns (add_messages h upper (register_schema m registry) messages) _
        (add_messages-Returns h upper (register_schema m registry) messages valid) (λ r. (_, refl)))

window_iff :
    (window : Option ℕ) (time_id : Option (List ℕ)) (key : List ℕ)
    → let enc : Encryption = record { key = key; replay_window = window; time_id = time_id } in
      lacks_clock (some enc) ≡ false
      → Returns (add_replay_window enc) ↔ (is_stray_window (some enc) ≡ false)
unfolding lacks_clock is_stray_window add_replay_window time_of
window_iff none time_id key clock = (λ r. refl, λ e. (_, refl))
window_iff (some window) (some id) key clock = (λ r. ground arith, λ e. (_, refl))
window_iff (some window) none key clock = (λ (r, e). cc, λ e. absurd (ground (arith, clock, e)))

add_encryption_iff :
    (h : Hashes) (encryption : Option Encryption)
    → lacks_clock encryption ≡ false
    → Returns (add_encryption h encryption) ↔ (is_stray_window encryption ≡ false)
unfolding add_encryption is_stray_window
add_encryption_iff h none clock = (λ r. refl, λ e. (_, refl))
add_encryption_iff h (some enc) clock =
    let window = window_iff enc.replay_window enc.time_id enc.key clock in
    (
      λ (r, e).
          let (replay, made, _) = >>=-eq-ok (add_replay_window enc) _ e in window.0 (replay, made),
      λ e. bind_Returns (add_replay_window enc) _ (window.1 e) (λ replay. (_, refl)),
    )

-- For a configuration that the validators have accepted, code is generated exactly if there is no
-- replay window of zero without a clock. With such a window, `enc[CONF_TIME_ID]` is a `KeyError`.
pub to_code_iff :
    (h : Hashes) (upper : ℕ → List ℕ) (has_mqtt has_api : Bool) (registry : Registry) (c : Config)
    → All (λ m. validate m ≡ ok tt) c.messages
    → final_validate has_api c ≡ ok c
    → Returns (to_code h upper has_mqtt registry c) ↔ (is_stray_window c.encryption ≡ false)
unfolding to_code final_validate
to_code_iff h upper has_mqtt has_api registry c valid accepted =
    let clock : lacks_clock c.encryption ≡ false = ground (arith, accepted) in
    let encryption = add_encryption_iff h c.encryption clock in
    let messages = add_messages-Returns h upper registry c.messages valid in
    (
      λ (r, e).
          let (_, _, rest) = >>=-eq-ok (add_messages h upper registry c.messages) _ e in
          let (made, done, _) = >>=-eq-ok (add_encryption h c.encryption) _ rest in
          encryption.0 (made, done),
      λ e. bind_Returns (add_messages h upper registry c.messages) _ messages (λ r.
          bind_Returns (add_encryption h c.encryption) _ (encryption.1 e) (λ made. (_, refl))),
    )
