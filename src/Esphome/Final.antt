-- ===== src/Esphome/Final.antt =====
-- `_final_validate` of components/mpubsub/__init__.py, on a configuration that CONFIG_SCHEMA has
-- accepted and filled with its defaults. Delays are milliseconds, windows seconds.
pub mod Accepted
use esphome_multicast_pubsub.Prelude.{
  ℕ, Bool, true, false, not, ◌&&◌, Option, none, some, List, [], ◌∷◌, map, Result, ok, raise,
  invalid, ◌>>=◌, ◌>>◌, raise_if, is_none, is_some, ltb,
}
use esphome_multicast_pubsub.Prelude.Int.{ℤ, minus_one, eq_ℤ}
use esphome_multicast_pubsub.Rules.{is_empty}
use esphome_multicast_pubsub.Schema.{Message, contains_text}

-- An entry of `on_message`.
pub record Trigger : Type 0 where
  pub id : List ℕ
  pub topic : List ℕ
  pub message : Option (List ℕ)
  pub require_encryption : Bool

pub record Encryption : Type 0 where
  pub key : List ℕ
  pub replay_window : Option ℕ
  pub time_id : Option (List ℕ)

pub record Config : Type 0 where
  pub id : List ℕ
  pub port : ℕ
  pub scope : List ℕ
  pub hops : ℕ
  pub retransmit_count : ℤ
  pub retransmit_delay : ℕ
  pub encryption : Option Encryption
  pub messages : List Message
  pub on_message : List Trigger

abbrev pub message_id : Message → List ℕ
message_id m = m.id

-- Whether a trigger's reference has no declaration.
unfoldable pub is_unknown : List (List ℕ) → Option (List ℕ) → Bool
unfolding contains_text
is_unknown declared none = false
is_unknown declared (some ref) = not (contains_text ref declared)

unfoldable pub check_references : List (List ℕ) → List Trigger → Result (Unit {0})
unfolding is_unknown
check_references declared [] = ok tt
check_references declared (t ∷ triggers) = do
  raise_if (is_unknown declared t.message) invalid
  check_references declared triggers

-- window is not None and window.total_seconds > 0 and CONF_TIME_ID not in enc
unfoldable pub lacks_clock : Option Encryption → Bool
lacks_clock none = false
lacks_clock (some enc) = elim enc.replay_window [
  | none ↦ false
  | some window ↦ ltb 0 window && is_none enc.time_id
]

unfoldable pub check_no_encryption : List Trigger → Result (Unit {0})
check_no_encryption [] = ok tt
check_no_encryption (t ∷ triggers) = do
  raise_if t.require_encryption invalid
  check_no_encryption triggers

unfoldable pub check_keys : Option Encryption → List Trigger → Result (Unit {0})
unfolding check_no_encryption
check_keys none triggers = check_no_encryption triggers
check_keys (some enc) triggers = ok tt

-- `has_api` is `"api" in full`.
unfoldable pub final_validate : Bool → Config → Result Config
unfolding is_empty check_references lacks_clock check_keys
final_validate has_api config = do
  raise_if (not (is_empty config.messages) && not has_api) invalid
  raise_if (eq_ℤ config.retransmit_count minus_one && ltb config.retransmit_delay 1000) invalid
  check_references (map message_id config.messages) config.on_message
  raise_if (lacks_clock config.encryption) invalid
  check_keys config.encryption config.on_message
  ok config
