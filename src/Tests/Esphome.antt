-- ===== src/Tests/Esphome.antt =====
-- Configurations of the ESPHome component.
use esphome_multicast_pubsub.Prelude.{
  ℕ, ◌≡◌, ◌↔◌, ◌≤◌, refl, Bool, true, false, ◌&&◌, ◌||◌, none, some, List, [], ◌∷◌, ◌++◌, All, ok,
  leb, codes, map,
}
use esphome_multicast_pubsub.Prelude.Int.{minus_one, eq_ℤ}
use esphome_multicast_pubsub.Rules.{is_empty}
use esphome_multicast_pubsub.Rules.Component.{Letters}
use esphome_multicast_pubsub.Schema.{contains_text, is_valid_type, validate}
use esphome_multicast_pubsub.Schema.Members.{action_value_type}
use esphome_multicast_pubsub.Schema.Struct.Total.{Returns}
use esphome_multicast_pubsub.Esphome.Final.{Trigger, Config, message_id, final_validate}
use esphome_multicast_pubsub.Esphome.Final.Accepted.{
  IsDeclared, HasClock, IsOpen, final_validate_iff,
}
use esphome_multicast_pubsub.Esphome.Messages.{messages_validator}
use esphome_multicast_pubsub.Esphome.Codegen.{to_code}
use esphome_multicast_pubsub.Esphome.Codegen.Generated.{is_stray_window, to_code_iff}
use esphome_multicast_pubsub.Esphome.Action.{
  CppType, bool_, int32, int64, uint8, int16, uint32, uint64, float_, std_string, std_vector,
  cpp_value_type,
}
use esphome_multicast_pubsub.Esphome.Action.Declared.{IsServed, accepted_action_iff}
use esphome_multicast_pubsub.Esphome.Action.Types.{Rendering, types_agree}
use esphome_multicast_pubsub.Tests.Data.{hashes}
use esphome_multicast_pubsub.Tests.Schema.{flag, status, status_accepted, upper}

abbrev small : ℕ → Bool
small c = leb b'a' c && leb c b'z'

abbrev letters : Letters
letters = record { is_alpha = small; is_alnum = λ c. small c || leb b'0' c && leb c b'9' }

abbrev on_status : Trigger
on_status = record {
  id = codes "t";
  topic = codes "a/b";
  message = some status.id;
  require_encryption = true;
}

-- With a window and a clock.
abbrev config : Config
config = record {
  id = codes "pubsub";
  port = 18512;
  scope = codes "link-local";
  hops = 1;
  retransmit_count = minus_one;
  retransmit_delay = 1000;
  encryption =
      some (record { key = codes "k"; replay_window = some 300; time_id = some (codes "sntp") });
  messages = status ∷ [];
  on_message = on_status ∷ [];
}

config_accepted : final_validate true config ≡ ok config
unfolding final_validate contains_text
config_accepted = refl

final_validate_iff_example : (final_validate true config ≡ ok config) ↔ (
    (is_empty config.messages ≡ false → true ≡ true)
    × (eq_ℤ config.retransmit_count minus_one ≡ true → 1000 ≤ config.retransmit_delay)
    × All (IsDeclared (map message_id config.messages)) config.on_message
    × HasClock config.encryption
    × (config.encryption ≡ none → All IsOpen config.on_message))
final_validate_iff_example = final_validate_iff true config

to_code_iff_example :
    Returns (to_code hashes upper true [] config) ↔ (is_stray_window config.encryption ≡ false)
to_code_iff_example =
    to_code_iff hashes upper true true [] config (status_accepted, tt) config_accepted

-- A window of zero without a clock is accepted, and has no code.
abbrev stray : Config
stray = record config {
  encryption = some (record { key = codes "k"; replay_window = some 0; time_id = none });
}

stray_accepted : final_validate true stray ≡ ok stray
unfolding final_validate contains_text
stray_accepted = refl

stray_refused : Returns (to_code hashes upper true [] stray) → true ≡ false
unfolding is_stray_window
stray_refused = (to_code_iff hashes upper true true [] stray (status_accepted, tt) stray_accepted).0

messages_accepted : messages_validator letters (status ∷ []) ≡ ok config.messages
unfolding messages_validator validate contains_text is_valid_type
messages_accepted = refl

code_generated : Returns (to_code hashes upper true [] config)
unfolding is_stray_window
code_generated = to_code_iff_example.1 refl

accepted_action_iff_example : All (IsServed upper code_generated.0.0) config.messages
accepted_action_iff_example =
    accepted_action_iff letters hashes upper true [] config (status ∷ []) code_generated.0
      messages_accepted code_generated.1

abbrev written : CppType → List ℕ
written bool_ = codes "bool"
written int32 = codes "int32_t"
written int64 = codes "int64_t"
written uint8 = codes "uint8_t"
written int16 = codes "int16_t"
written uint32 = codes "uint32_t"
written uint64 = codes "uint64_t"
written float_ = codes "float"
written std_string = codes "std::string"
written (std_vector t) = codes "std::vector<" ++ written t ++ codes ">"

abbrev rendering : Rendering
rendering = record {
  render = written;
  bool_text = refl;
  int32_text = refl;
  int64_text = refl;
  uint8_text = refl;
  uint32_text = refl;
  uint64_text = refl;
  float_text = refl;
  string_text = refl;
  vector_text = λ t. refl;
}

types_agree_example :
    (type : CppType) × (cpp_value_type flag.type_name flag.repeated ≡ ok type)
    × (action_value_type flag ≡ ok (written type))
unfolding is_valid_type contains_text
types_agree_example = types_agree rendering flag refl
