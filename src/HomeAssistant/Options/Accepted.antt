-- ===== src/HomeAssistant/Options/Accepted.antt =====
-- What the forms accept, the client of python/mpubsub/aio.py accepts.
use esphome_multicast_pubsub.Prelude.{
  ℕ, ◌≡◌, ◌↔◌, refl, Bool, false, not, ◌&&◌, ◌||◌, Option, none, some, List, [], ◌∷◌, ◌++◌, length,
  Result, ok, raise, value_error, raise_if, ◌>>◌, arith, ltb, ◌==◌, if◌then◌else◌, sym, ap,
  >>=-eq-ok,
}
use mathlib.Core.Option
use esphome_multicast_pubsub.Prelude.Int.{ℤ, pos, minus_one, eq_ℤ, ltb_ℤ}
use esphome_multicast_pubsub.Topic.{Hashes, derive_key, utf8}
use esphome_multicast_pubsub.Rules.{is_empty}
use esphome_multicast_pubsub.Rules.Aio.{name, resolve_scope, link_local}
use esphome_multicast_pubsub.Client.{
  Client, Settings, passphrase, init, initial, resolve_key, is_falsy, retransmit_indefinite,
  min_indefinite_delay,
}
use esphome_multicast_pubsub.HomeAssistant.Transport.{MpubsubConfig, new_client}
use esphome_multicast_pubsub.HomeAssistant.Options.{
  EntryData, Options, is_given, validate_options, config_from_entry, scope_nibble, or_none,
  default_hops, default_retransmit_count, default_retransmit_delay, default_promote_qos,
  default_replay_window, invalid_retransmit_count, indefinite_needs_delay, replay_window_needs_key,
}
use esphome_multicast_pubsub.Wire.{bytes_eq, default_port}

-- At least -1, as the form's selector has it.
abbrev pub IsSelectable : ℤ → Type 0
IsSelectable count = ltb_ℤ count minus_one ≡ false

-- The client's construction with a fabric's data and options.
abbrev pub init_with : Hashes → EntryData → Options → Result Client
init_with h entry o =
    init h (name (Option.get_or entry.scope link_local))
      (passphrase (Option.get_or entry.encryption_key []))
      (Option.get_or o.replay_window default_replay_window)
      (Option.get_or o.retransmit_count default_retransmit_count)
      (Option.get_or o.retransmit_delay default_retransmit_delay)
      (Option.get_or o.promote_qos default_promote_qos)

-- A key that was derived is not empty.
derived_is_falsy : (h : Hashes) (text : List ℕ) → is_falsy (some (derive_key h text)) ≡ false
unfolding derive_key
derived_is_falsy h text =
    elim (h.sha256 (utf8 text)) as (λ b. length b ≡ 32 → is_falsy (some b) ≡ false) [
      | [] ↦ λ e. cc
      | x ∷ xs ↦ λ e. refl
    ]
      (h.length-sha256 (utf8 text))

resolved :
    (text : List ℕ) {scope : ℕ}
    → scope_nibble text ≡ ok scope
    → resolve_scope (name text) ≡ ok scope
unfolding scope_nibble resolve_scope bytes_eq
resolved text known = ground (arith, known)

-- A passphrase makes no key exactly if it is empty.
key_is_falsy :
    (h : Hashes) (text : List ℕ) → is_falsy (resolve_key h (passphrase text)) ≡ is_empty text
unfolding resolve_key is_empty
key_is_falsy h [] = refl
key_is_falsy h (c ∷ text) = derived_is_falsy h (c ∷ text)

given_is_empty : (text : Option (List ℕ)) → not (is_given text) ≡ is_empty (Option.get_or text [])
unfolding is_given is_empty
given_is_empty none = refl
given_is_empty (some []) = refl
given_is_empty (some (c ∷ text)) = refl

-- The two forms of the three tests.
tests_iff {ℓ} :
    {A : Type ℓ} (zero indefinite short window keyless : Bool) (made : A)
    → ((if zero
            then invalid_retransmit_count ∷ []
            else if indefinite && short
            then indefinite_needs_delay ∷ []
            else [])
          ++ (if window && keyless then replay_window_needs_key ∷ [] else [])
        ≡ [])
      ↔ ((raise_if (indefinite && short) value_error
            >> (raise_if (zero || false) value_error
                >> (raise_if (window && keyless) value_error >> ok made)))
          ≡ ok made)
tests_iff zero indefinite short window keyless made = ground arith

positive_iff : (window : ℕ) → ltb 0 window ≡ not (window == 0)
positive_iff window = ground arith

key_is_same :
    (h : Hashes) (text : List ℕ)
    → resolve_key h (passphrase text) ≡ (if is_empty text then none else some (derive_key h text))
unfolding resolve_key
key_is_same h text = refl

-- `_config_from_entry`, once the scope is known.
abbrev config_at : Hashes → EntryData → Options → ℕ → Result MpubsubConfig
config_at h entry o scope = ok (record {
  port = Option.get_or entry.port default_port;
  scope = scope;
  interface = or_none entry.interface;
  key = resolve_key h (passphrase (Option.get_or entry.encryption_key []));
  hops = Option.get_or o.hops default_hops;
  retransmit_count = Option.get_or o.retransmit_count default_retransmit_count;
  retransmit_delay = Option.get_or o.retransmit_delay default_retransmit_delay;
  promote_qos = Option.get_or o.promote_qos default_promote_qos;
  replay_window = Option.get_or o.replay_window default_replay_window;
})

abbrev settings_at : Hashes → EntryData → Options → ℕ → Settings
settings_at h entry o scope = record {
  scope = scope;
  key = resolve_key h (passphrase (Option.get_or entry.encryption_key []));
  retransmit_count = Option.get_or o.retransmit_count default_retransmit_count;
  retransmit_delay = Option.get_or o.retransmit_delay default_retransmit_delay;
  promote_qos = Option.get_or o.promote_qos default_promote_qos;
}

abbrev constructed : Result MpubsubConfig → Result Client
constructed (raise why) = raise why
constructed (ok config) = ok (new_client config)

-- For a known scope and a count that the form can give: the options form has no error exactly if the
-- client can be constructed with the same values, and the transport then starts in the same state.
pub accepted_iff :
    (h : Hashes) (entry : EntryData) (o : Options) {config : MpubsubConfig}
    → config_from_entry h entry o ≡ ok config
    → IsSelectable (Option.get_or o.retransmit_count default_retransmit_count)
    → (validate_options o (is_given entry.encryption_key) ≡ [])
      ↔ (init_with h entry o ≡ ok (new_client config))
unfolding init new_client config_from_entry validate_options resolve_key
accepted_iff h entry o made count =
    let (scope, known, same) =
      >>=-eq-ok (scope_nibble (Option.get_or entry.scope link_local)) (config_at h entry o) made in
    let clients = ap constructed same in
    rw
      (
        sym clients,
        resolved _ known,
        count,
        key_is_falsy h _,
        given_is_empty entry.encryption_key,
        positive_iff _,
      )
      (tests_iff (eq_ℤ (Option.get_or o.retransmit_count default_retransmit_count) (pos 0))
        (eq_ℤ (Option.get_or o.retransmit_count default_retransmit_count) retransmit_indefinite)
        (ltb (Option.get_or o.retransmit_delay default_retransmit_delay) min_indefinite_delay)
        (not (Option.get_or o.replay_window default_replay_window == 0))
        (is_empty (Option.get_or entry.encryption_key []))
        (initial (settings_at h entry o scope)
          (Option.get_or o.replay_window default_replay_window)))
