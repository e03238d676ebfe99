-- ===== src/Schema/Struct/Text.antt =====
-- The template of `emit_struct`: the text around the generated parts.
use esphome_multicast_pubsub.Prelude.{ℕ, List, [], ◌∷◌, ◌++◌, codes, hex4, lines}

pub record Parts : Type 0 where
  pub id : List ℕ
  pub canonical : List ℕ
  pub sid : ℕ
  pub struct_name : List ℕ
  pub members : List ℕ
  pub encode_calls : List ℕ
  pub decode_overrides : List ℕ
  pub call_setters : List ℕ
  pub action_setters : List ℕ
  pub action_assignments : List ℕ

unfoldable pub struct_class : Parts → List ℕ
struct_class p = lines (
    (codes "// ----- Generated from YAML messages: entry '"
      ++ p.id
      ++ codes "' (do not edit) -----")
    ∷ (codes "// Canonical schema: \"" ++ p.canonical ++ codes "\"")
    ∷ (codes "namespace esphome::multicast_pubsub::messages {")
    ∷ []
    ∷ (codes "struct " ++ p.struct_name ++ codes " : public esphome::api::ProtoDecodableMessage {")
    ∷ (codes "  static constexpr uint16_t SCHEMA_ID = 0x" ++ hex4 p.sid ++ codes ";")
    ∷ (codes "  static constexpr const char *SCHEMA_NAME = \"" ++ p.id ++ codes "\";")
    ∷ []
    ∷ (p.members)
    ∷ []
    ∷ (codes "  // Encode into pre-allocated buffer. Returns number of bytes written.")
    ∷ (codes "  // Caller must ensure `out` has space for at least the encoded size.")
    ∷ (codes "  size_t encode_to(uint8_t *out, size_t max_len) const {")
    ∷ (codes "    uint8_t *pos = out;")
    ∷ (codes "    [[maybe_unused]] uint8_t *proto_debug_end_ = out + max_len;")
    ∷ (p.encode_calls)
    ∷ (codes "    return static_cast<size_t>(pos - out);")
    ∷ (codes "  }")
    ∷ []
    ∷ (p.decode_overrides)
    ∷ []
    ∷ (codes "  // Forward declaration for the fluent builder; defined out-of-class")
    ∷ (codes "  // below so its `" ++ p.struct_name ++ codes " msg_` member can be a value member")
    ∷ (codes "  // (incomplete-type rule forbids that inside the enclosing class body).")
    ∷ (codes "  class Call;")
    ∷ (codes "};")
    ∷ []
    ∷ [])

unfoldable pub call_class : Parts → List ℕ
call_class p = lines (
    (codes "// Fluent builder, modeled after esphome::light::LightCall. Bind a")
    ∷ (codes "// parent + topic at construction, chain set_<field>() calls (each")
    ∷ (codes "// returns *this), then perform() to encode and publish.")
    ∷ (codes "//")
    ∷ (codes "// Example:")
    ∷ (codes "//   " ++ p.struct_name ++ codes "::Call(id(pubsub), \"home/garage/climate\")")
    ∷ (codes "//       .set_temperature(22.5f)")
    ∷ (codes "//       .set_room_id(\"garage\")")
    ∷ (codes "//       .perform();")
    ∷ (codes "//")
    ∷ (codes "// Equivalent via the templated factory on MulticastPubSub:")
    ∷ (codes "//   id(pubsub)->make_call<" ++ p.struct_name ++ codes ">(\"home/garage/climate\")")
    ∷ (codes "//       .set_temperature(22.5f).set_room_id(\"garage\").perform();")
    ∷ (codes "class " ++ p.struct_name ++ codes "::Call {")
    ∷ (codes " public:")
    ∷ (codes "  Call(esphome::multicast_pubsub::MulticastPubSub *parent, std::string topic)")
    ∷ (codes "      : parent_(parent), topic_(std::move(topic)) {}")
    ∷ []
    ∷ (p.call_setters)
    ∷ []
    ∷ (codes "  /// Direct access to the underlying message -- escape hatch for")
    ∷ (codes "  /// repeated-field push_back, conditional assembly, or anything the")
    ∷ (codes "  /// fluent setters don't cover.")
    ∷ (codes "  " ++ p.struct_name ++ codes " &message() { return this->msg_; }")
    ∷ (codes "  const " ++ p.struct_name ++ codes " &message() const { return this->msg_; }")
    ∷ []
    ∷ (codes "  /// Set/replace the destination topic.")
    ∷ (codes
        "  Call &set_topic(std::string topic) { this->topic_ = std::move(topic); return *this; }")
    ∷ (codes "  const std::string &topic() const { return this->topic_; }")
    ∷ []
    ∷ (codes "  /// Encode and publish. Returns false on socket error or oversize payload")
    ∷ (codes "  /// (see MulticastPubSub::publish for diagnostics).")
    ∷ (codes "  bool perform();")
    ∷ []
    ∷ (codes " protected:")
    ∷ (codes "  esphome::multicast_pubsub::MulticastPubSub *parent_;")
    ∷ (codes "  std::string topic_;")
    ∷ (codes "  " ++ p.struct_name ++ codes " msg_;")
    ∷ (codes "};")
    ∷ []
    ∷ (codes "}  // namespace esphome::multicast_pubsub::messages")
    ∷ []
    ∷ [])

unfoldable pub trigger_class : Parts → List ℕ
trigger_class p = lines (
    (codes "namespace esphome::multicast_pubsub {")
    ∷ []
    ∷ (codes "// Typed trigger class for `on_message: + message: "
        ++ p.id
        ++ codes "`. The argument")
    ∷ (codes "// passed into the user lambda is the fully-decoded struct, not raw bytes.")
    ∷ (codes "class On"
        ++ p.struct_name
        ++ codes "Trigger : public esphome::Trigger<esphome::multicast_pubsub::messages::"
        ++ p.struct_name
        ++ codes "> {")
    ∷ (codes " public:")
    ∷ (codes "  On"
        ++ p.struct_name
        ++ codes
            "Trigger(MulticastPubSub *parent, const std::string &topic, bool require_encryption = false) {")
    ∷ (codes "    parent->subscribe_typed<esphome::multicast_pubsub::messages::"
        ++ p.struct_name
        ++ codes ">(")
    ∷ (codes "        topic, [this](const esphome::multicast_pubsub::messages::"
        ++ p.struct_name
        ++ codes " &m) {")
    ∷ (codes "          this->trigger(m);")
    ∷ (codes "        },")
    ∷ (codes "        require_encryption);")
    ∷ (codes "  }")
    ∷ (codes "};")
    ∷ []
    ∷ (codes "}  // namespace esphome::multicast_pubsub")
    ∷ []
    ∷ (codes "// perform() is defined here so it can call MulticastPubSub::publish<T>")
    ∷ (codes "// (whose definition lives in multicast_pubsub.h and is included before this).")
    ∷ (codes "inline bool esphome::multicast_pubsub::messages::"
        ++ p.struct_name
        ++ codes "::Call::perform() {")
    ∷ (codes "  return this->parent_->publish(this->topic_, this->msg_);")
    ∷ (codes "}")
    ∷ []
    ∷ [])

unfoldable pub action_class : Parts → List ℕ
action_class p = lines (
    (codes "namespace esphome::multicast_pubsub {")
    ∷ []
    ∷ (codes "// Codegen-generated YAML action class for `mpubsub.publish:")
    ∷ (codes "// + message: " ++ p.id ++ codes "`. One TEMPLATABLE_VALUE per declared field")
    ∷ (codes "// (std::vector<T> for repeated fields). Python codegen calls")
    ∷ (codes "// set_<field>(...) on the templated values it has, leaves the rest at")
    ∷ (codes "// default. play() always assigns every field -- proto3 default-omission")
    ∷ (codes "// keeps the wire size correct for unset fields.")
    ∷ (codes "template<typename... Ts> class Publish" ++ p.struct_name ++ codes "Action")
    ∷ (codes "    : public esphome::Action<Ts...>, public esphome::Parented<MulticastPubSub> {")
    ∷ (codes " public:")
    ∷ (codes "  TEMPLATABLE_VALUE(std::string, topic)")
    ∷ (codes "  TEMPLATABLE_VALUE(int16_t, retransmit_count)")
    ∷ (p.action_setters)
    ∷ []
    ∷ (codes "  void play(const Ts &...x) override {")
    ∷ (codes "    esphome::multicast_pubsub::messages::" ++ p.struct_name ++ codes " m;")
    ∷ (p.action_assignments)
    ∷ (codes "    // See PublishAction::play in automation.h for the save/restore rationale.")
    ∷ (codes "    if (this->retransmit_count_.has_value()) {")
    ∷ (codes "      int16_t saved = this->parent_->get_retransmit_count();")
    ∷ (codes "      this->parent_->set_retransmit_count(this->retransmit_count_.value(x...));")
    ∷ (codes "      this->parent_->publish(this->topic_.value(x...), m);")
    ∷ (codes "      this->parent_->set_retransmit_count(saved);")
    ∷ (codes "    } else {")
    ∷ (codes "      this->parent_->publish(this->topic_.value(x...), m);")
    ∷ (codes "    }")
    ∷ (codes "  }")
    ∷ (codes "};")
    ∷ []
    ∷ (codes "}  // namespace esphome::multicast_pubsub")
    ∷ [])

-- The template begins with an empty line.
unfoldable pub struct_text : Parts → List ℕ
unfolding struct_class call_class trigger_class action_class
struct_text p = b'\n' ∷ struct_class p ++ call_class p ++ trigger_class p ++ action_class p
