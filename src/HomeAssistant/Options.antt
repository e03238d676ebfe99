-- ===== src/HomeAssistant/Options.antt =====
-- The config entry and its options: `_validate_options` and the two flow steps of
-- custom_components/mpubsub/config_flow.py, and `_config_from_entry` of __init__.py. Delays are
-- milliseconds. The forms' selectors, which are Home Assistant's, bound the numbers; `_probe_socket`
-- is what the operating system answers.
pub mod Accepted
use esphome_multicast_pubsub.Prelude.{
  ℕ, ◌-◌, Bool, true, false, not, ◌&&◌, Option, none, some, List, [], ◌∷◌, ◌++◌, Result, ok, raise,
  lookup_error, ◌>>=◌, ltb, ◌==◌, if◌then◌else◌,
}
use mathlib.Core.Option
use esphome_multicast_pubsub.Prelude.Int.{ℤ, pos, eq_ℤ}
use esphome_multicast_pubsub.Topic.{
  Hashes, derive_key, scope_link_local, scope_site_local, scope_org_local,
}
use esphome_multicast_pubsub.Wire.{bytes_eq, default_port}
use esphome_multicast_pubsub.Rules.{is_empty}
use esphome_multicast_pubsub.Rules.Aio.{link_local, site_local, organization_local}
use esphome_multicast_pubsub.HomeAssistant.Transport.{MpubsubConfig, retransmit_indefinite}

abbrev pub default_hops : ℕ
default_hops = 1

abbrev pub default_retransmit_count : ℤ
default_retransmit_count = pos 1

-- 0.1 s
abbrev pub default_retransmit_delay : ℕ
default_retransmit_delay = 100

abbrev pub default_promote_qos : Bool
default_promote_qos = false

abbrev pub default_replay_window : ℕ
default_replay_window = 0

-- 1.0 s
abbrev pub min_indefinite_delay : ℕ
min_indefinite_delay = 1000

-- SCOPES[name], or a `KeyError`
unfoldable pub scope_nibble : List ℕ → Result ℕ
unfolding bytes_eq
scope_nibble name =
    if bytes_eq name link_local
    then ok scope_link_local
    else if bytes_eq name site_local
    then ok scope_site_local
    else if bytes_eq name organization_local
    then ok scope_org_local
    else raise lookup_error

-- `entry.data`: what identifies a fabric.
pub record EntryData : Type 0 where
  pub port : Option ℕ
  pub scope : Option (List ℕ)
  pub interface : Option (List ℕ)
  pub encryption_key : Option (List ℕ)

-- `entry.options`, and what the options form returns.
pub record Options : Type 0 where
  pub hops : Option ℕ
  pub retransmit_count : Option ℤ
  pub retransmit_delay : Option ℕ
  pub promote_qos : Option Bool
  pub replay_window : Option ℕ

pub data FormError : Type 0 where
  invalid_retransmit_count : FormError
  indefinite_needs_delay : FormError
  replay_window_needs_key : FormError
  unknown_interface : FormError
  cannot_connect : FormError

-- The errors on the fields of the options form.
unfoldable pub validate_options : Options → Bool → List FormError
validate_options options has_key =
    let count = Option.get_or options.retransmit_count default_retransmit_count in
    let delay = Option.get_or options.retransmit_delay default_retransmit_delay in
    let window = Option.get_or options.replay_window default_replay_window in
    (if eq_ℤ count (pos 0)
      then invalid_retransmit_count ∷ []
      else if eq_ℤ count retransmit_indefinite && ltb delay min_indefinite_delay
      then indefinite_needs_delay ∷ []
      else [])
    ++ (if ltb 0 window && not has_key then replay_window_needs_key ∷ [] else [])

-- bool(text), where a missing text is empty
unfoldable pub is_given : Option (List ℕ) → Bool
unfolding is_empty
is_given none = false
is_given (some t) = not (is_empty t)

pub data FlowResult {ℓ} (A : Type ℓ) : Type ℓ where
  abort : FlowResult A
  show_form : List FormError → FlowResult A
  create_entry : A → FlowResult A

-- `MpubsubOptionsFlow.async_step_init`; the form gives all five fields, or nothing yet.
unfoldable pub step_init : EntryData → Option Options → FlowResult Options
step_init entry none = show_form []
step_init entry (some user_input) =
    elim (validate_options user_input (is_given entry.encryption_key)) [
      | [] ↦ create_entry user_input
      | e ∷ es ↦ show_form (e ∷ es)
    ]

-- What opening the socket on a port and an interface says: it works, there is no such interface
-- (errno `None` or 19), or something else failed.
pub data Probe : Type 0 where
  opened no_device failed : Probe

-- text.strip(), for the characters that `str.isspace` names
abbrev pub lstrip : (ℕ → Bool) → List ℕ → List ℕ
lstrip is_space [] = []
lstrip is_space (c ∷ t) = let rest = lstrip is_space t in if is_space c then rest else c ∷ t

abbrev pub rstrip : (ℕ → Bool) → List ℕ → List ℕ
rstrip is_space [] = []
rstrip is_space (c ∷ t) = elim (rstrip is_space t) [
  | [] ↦ if is_space c then [] else c ∷ []
  | d ∷ ds ↦ c ∷ d ∷ ds
]

-- What the user form gives.
pub record UserInput : Type 0 where
  pub port : ℕ
  pub scope : List ℕ
  pub interface : Option (List ℕ)
  pub encryption_key : Option (List ℕ)

-- `MpubsubConfigFlow.async_step_user`
unfoldable pub step_user :
    (ℕ → Bool) → (ℕ → List ℕ → Probe) → Bool → Option UserInput → FlowResult EntryData
unfolding is_empty
step_user is_space probe has_entry none = if has_entry then abort else show_form []
step_user is_space probe has_entry (some i) =
    let interface = rstrip is_space (lstrip is_space (Option.get_or i.interface [])) in
    if has_entry then abort else elim (probe i.port interface) [
      | opened ↦ create_entry (record {
        port = some i.port;
        scope = some i.scope;
        interface = some interface;
        encryption_key = some (Option.get_or i.encryption_key []);
      })
      | no_device ↦
          show_form ((if is_empty interface then cannot_connect else unknown_interface) ∷ [])
      | failed ↦ show_form (cannot_connect ∷ [])
    ]

-- data.get(CONF_INTERFACE) or None
unfoldable pub or_none : Option (List ℕ) → Option (List ℕ)
unfolding is_empty
or_none none = none
or_none (some t) = if is_empty t then none else some t

unfoldable pub config_from_entry : Hashes → EntryData → Options → Result MpubsubConfig
unfolding is_given or_none scope_nibble derive_key
config_from_entry h entry options = do
  let passphrase = Option.get_or entry.encryption_key []
  scope ← scope_nibble (Option.get_or entry.scope link_local)
  ok (record {
    port = Option.get_or entry.port default_port;
    scope = scope;
    interface = or_none entry.interface;
    key = if is_empty passphrase then none else some (derive_key h passphrase);
    hops = Option.get_or options.hops default_hops;
    retransmit_count = Option.get_or options.retransmit_count default_retransmit_count;
    retransmit_delay = Option.get_or options.retransmit_delay default_retransmit_delay;
    promote_qos = Option.get_or options.promote_qos default_promote_qos;
    replay_window = Option.get_or options.replay_window default_replay_window;
  })
