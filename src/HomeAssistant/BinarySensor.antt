-- ===== src/HomeAssistant/BinarySensor.antt =====
-- `MpubsubBinarySensor` of custom_components/mpubsub/binary_sensor.py, with the availability of
-- entity.py. Home Assistant's timers are a list and a clock; the handle that `async_call_later` returns
-- is a number. A template is a function of the payload, which may give no text.
pub mod Kept
pub mod Timers
pub mod OffDelay
use esphome_multicast_pubsub.Prelude.{
  ℕ, ◌+◌, Bool, true, false, not, Option, none, some, List, [], ◌∷◌, ◌++◌, ◌==◌, if◌then◌else◌,
}
use esphome_multicast_pubsub.Wire.{bytes_eq}

-- The two callbacks, `_expired` and `_off`.
pub data Callback : Type 0 where
  expired off : Callback

pub record Timer : Type 0 where
  pub handle : ℕ
  pub due : ℕ
  pub run : Callback

pub record Settings : Type 0 where
  pub payload_on : List ℕ
  pub payload_off : List ℕ
  pub expire_after : Option ℕ
  pub off_delay : Option ℕ
  pub payload_available : List ℕ
  pub payload_not_available : List ℕ
  pub has_availability_topic : Bool

-- The state that `is_on` and `available` show, the two handles, and what Home Assistant has: the
-- pending timers, the clock, the next handle and the states that were written.
pub record BinarySensor : Type 0 where
  pub settings : Settings
  pub is_on : Option Bool
  pub available : Bool
  pub expire_cancel : Option ℕ
  pub off_delay_cancel : Option ℕ
  pub timers : List Timer
  pub clock : ℕ
  pub next_handle : ℕ
  pub written : List (Option Bool)

unfoldable pub new_sensor : Settings → BinarySensor
new_sensor settings = record {
  settings = settings;
  is_on = none;
  available = not settings.has_availability_topic;
  expire_cancel = none;
  off_delay_cancel = none;
  timers = [];
  clock = 0;
  next_handle = 0;
  written = [];
}

-- async_write_ha_state
unfoldable pub write_state : BinarySensor → BinarySensor
write_state s = record s { written = s.written ++ s.is_on ∷ [] }

-- A call of the handle.
unfoldable pub cancel_timer : ℕ → List Timer → List Timer
cancel_timer h [] = []
cancel_timer h (t ∷ timers) =
    let rest = cancel_timer h timers in if t.handle == h then rest else t ∷ rest

unfoldable pub cancel_kept : Option ℕ → List Timer → List Timer
unfolding cancel_timer
cancel_kept none timers = timers
cancel_kept (some h) timers = cancel_timer h timers

-- async_call_later
unfoldable pub call_later : BinarySensor → ℕ → Callback → BinarySensor
call_later s delay run = record s {
  timers = s.timers ++ record { handle = s.next_handle; due = s.clock + delay; run = run } ∷ [];
  next_handle = s.next_handle + 1;
}

unfoldable pub reset_expiry : BinarySensor → BinarySensor
unfolding cancel_kept call_later
reset_expiry s = elim s.settings.expire_after [
  | none ↦ s
  | some after ↦
      record (call_later (record s { timers = cancel_kept s.expire_cancel s.timers }) after
        expired) { expire_cancel = some s.next_handle }
]

-- `_arm_off_delay` once the old timer is cancelled.
unfoldable pub arm : BinarySensor → ℕ → BinarySensor
unfolding call_later
arm s delay = elim s.is_on [
  | none ↦ s
  | some false ↦ s
  | some true ↦ record (call_later s delay off) { off_delay_cancel = some s.next_handle }
]

unfoldable pub arm_off_delay : BinarySensor → BinarySensor
unfolding cancel_kept arm
arm_off_delay s = elim s.settings.off_delay [
  | none ↦ s
  | some delay ↦
      arm (record s { timers = cancel_kept s.off_delay_cancel s.timers; off_delay_cancel = none })
        delay
]

-- A payload that is on or off.
unfoldable pub switched : BinarySensor → Bool → BinarySensor
unfolding reset_expiry arm_off_delay write_state
switched s on = write_state (arm_off_delay (reset_expiry (record s { is_on = some on })))

-- `_message`, on the payload that the template gives.
unfoldable pub message : BinarySensor → Option (List ℕ) → BinarySensor
unfolding switched bytes_eq
message s none = s
message s (some payload) =
    if bytes_eq payload s.settings.payload_on
    then switched s true
    else if bytes_eq payload s.settings.payload_off
    then switched s false
    else s

-- `_availability`
unfoldable pub availability : BinarySensor → Option (List ℕ) → BinarySensor
unfolding bytes_eq write_state
availability s none = s
availability s (some payload) =
    if bytes_eq payload s.settings.payload_available
    then write_state (record s { available = true })
    else if bytes_eq payload s.settings.payload_not_available
    then write_state (record s { available = false })
    else s

-- `_expired` and `_off`
unfoldable pub run_callback : BinarySensor → Callback → BinarySensor
unfolding write_state
run_callback s expired = write_state (record s { expire_cancel = none; is_on = none })
run_callback s off = write_state (record s { off_delay_cancel = none; is_on = some false })

-- The event loop runs a timer, which is pending no more.
unfoldable pub run_timer : BinarySensor → Timer → BinarySensor
unfolding cancel_timer run_callback
run_timer s t = run_callback (record s { timers = cancel_timer t.handle s.timers }) t.run

-- async_will_remove_from_hass, without the subscriptions
unfoldable pub will_remove : BinarySensor → BinarySensor
unfolding cancel_kept
will_remove s = record s {
  timers = cancel_kept s.off_delay_cancel (cancel_kept s.expire_cancel s.timers);
  expire_cancel = none;
  off_delay_cancel = none;
}
