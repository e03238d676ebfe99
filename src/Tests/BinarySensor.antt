-- ===== src/Tests/BinarySensor.antt =====
-- A binary sensor that hears one payload.
use esphome_multicast_pubsub.Prelude.{◌+◌, ◌≡◌, refl, true, false, some, [], ◌∷◌, codes}
use esphome_multicast_pubsub.HomeAssistant.BinarySensor.{
  Settings, BinarySensor, new_sensor, message, will_remove, expired, off,
}
use esphome_multicast_pubsub.HomeAssistant.BinarySensor.Timers.{
  IsTidy, Reachable, created, stepped, receives, will_remove_cancels_all,
}
use esphome_multicast_pubsub.HomeAssistant.BinarySensor.OffDelay.{WillTurnOff, message-WillTurnOff}

abbrev settings : Settings
settings = record {
  payload_on = codes "ON";
  payload_off = codes "OFF";
  expire_after = some 60_000;
  off_delay = some 5000;
  payload_available = codes "online";
  payload_not_available = codes "offline";
  has_availability_topic = false;
}

abbrev heard : BinarySensor
heard = message (new_sensor settings) (some settings.payload_on)

-- Both timers are pending.
two_timers :
    heard.timers
    ≡ record { handle = 0; due = 60_000; run = expired }
      ∷ record { handle = 1; due = 5000; run = off }
      ∷ []
unfolding message new_sensor codes
two_timers = refl

heard-Reachable : Reachable heard
heard-Reachable = stepped (created settings) (receives (some settings.payload_on))

will_remove_cancels_all_example : IsTidy heard × ((will_remove heard).timers ≡ [])
will_remove_cancels_all_example = will_remove_cancels_all heard-Reachable

message-WillTurnOff_example : (heard.is_on ≡ some true) × WillTurnOff heard (0 + 5000)
unfolding new_sensor
message-WillTurnOff_example = message-WillTurnOff (new_sensor settings) 5000 refl
