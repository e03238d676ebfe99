-- ===== src/Esphome/Final/Accepted.antt =====
-- Which configurations pass the checks across their parts.
use esphome_multicast_pubsub.Prelude.{
  ℕ, ◌<◌, ◌≤◌, ◌≡◌, ◌↔◌, refl, sym, ap, ◌∙◌, Bool, true, false, Option, none, some, List, [], ◌∷◌,
  map, All, ok, arith, is_some, is_some-is_none,
}
use esphome_multicast_pubsub.Prelude.Int.{minus_one, eq_ℤ}
use esphome_multicast_pubsub.Rules.{is_empty}
use esphome_multicast_pubsub.Schema.{contains_text}
use esphome_multicast_pubsub.Esphome.Final.{
  Trigger, Encryption, Config, message_id, is_unknown, check_references, lacks_clock,
  check_no_encryption, check_keys, final_validate,
}

-- A typed trigger names a message that is declared.
abbrev pub IsDeclared : List (List ℕ) → Trigger → Type 0
IsDeclared declared t = (ref : List ℕ) → t.message ≡ some ref → contains_text ref declared ≡ true

-- A window that is not zero has a clock.
abbrev pub HasClock : Option Encryption → Type 0
HasClock encryption =
    (enc : Encryption) (window : ℕ)
    → encryption ≡ some enc
    → enc.replay_window ≡ some window
    → 0 < window
    → is_some enc.time_id ≡ true

abbrev pub IsOpen : Trigger → Type 0
IsOpen t = t.require_encryption ≡ false

some_eq {ℓ} : {A : Type ℓ} {a b : A} → some a ≡ some b → a ≡ b
some_eq {a} same = ap (λ o. elim o [ some x ↦ x | none ↦ a ]) same

known_iff :
    (declared : List (List ℕ)) (message : Option (List ℕ))
    → (is_unknown declared message ≡ false)
      ↔ ((ref : List ℕ) → message ≡ some ref → contains_text ref declared ≡ true)
unfolding is_unknown
known_iff declared none = (λ e ref f. cc, λ all. refl)
known_iff declared (some r) = (
  λ e ref f.
      let here : contains_text r declared ≡ true = ground (arith, e) in rw (sym (some_eq f)) here,
  λ all. let here = all r refl in ground (arith, here),
)

check_references_iff :
    (declared : List (List ℕ)) (triggers : List Trigger)
    → (check_references declared triggers ≡ ok tt) ↔ All (IsDeclared declared) triggers
unfolding check_references
check_references_iff declared [] = (λ e. tt, λ all. refl)
check_references_iff declared (t ∷ triggers) =
    let known = known_iff declared t.message in
    let rest = check_references_iff declared triggers in
    (
      λ e. (known.0 (ground (arith, e)), rest.0 (ground (arith, e))),
      λ all. let a = known.1 all.0 in let b = rest.1 all.1 in ground (arith, a, b),
    )

check_no_encryption_iff :
    (triggers : List Trigger) → (check_no_encryption triggers ≡ ok tt) ↔ All IsOpen triggers
unfolding check_no_encryption
check_no_encryption_iff [] = (λ e. tt, λ all. refl)
check_no_encryption_iff (t ∷ triggers) =
    let rest = check_no_encryption_iff triggers in
    (
      λ e. (ground (arith, e), rest.0 (ground (arith, e))),
      λ all. let a = all.0 in let b = rest.1 all.1 in ground (arith, a, b),
    )

window_iff :
    (window : Option ℕ) (time_id : Option (List ℕ)) (key : List ℕ)
    → (lacks_clock (some (record { key = key; replay_window = window; time_id = time_id })) ≡ false)
      ↔ ((w : ℕ) → window ≡ some w → 0 < w → is_some time_id ≡ true)
unfolding lacks_clock
window_iff none time_id key = (λ e w f. cc, λ all. refl)
window_iff (some window) time_id key = (
  λ e w f p. let same = some_eq f in ground (arith, e, same, p, is_some-is_none time_id),
  λ all. let here = all window refl in ground (arith, here, is_some-is_none time_id),
)

clock_iff :
    (encryption : Option Encryption) → (lacks_clock encryption ≡ false) ↔ HasClock encryption
unfolding lacks_clock
clock_iff none = (λ e enc window f. cc, λ clock. refl)
clock_iff (some enc) =
    let here = window_iff enc.replay_window enc.time_id enc.key in
    (
      λ e other window f g p.
          let same : enc ≡ other = some_eq f in
          rw (sym same) (here.0 e window (ap (λ (x : Encryption). x.replay_window) same ∙ g) p),
      λ clock. here.1 (λ w f p. clock enc w refl f p),
    )

keys_iff :
    (encryption : Option Encryption) (triggers : List Trigger)
    → (check_keys encryption triggers ≡ ok tt) ↔ (encryption ≡ none → All IsOpen triggers)
unfolding check_keys
keys_iff none triggers = (
  λ e f. (check_no_encryption_iff triggers).0 e,
  λ all. (check_no_encryption_iff triggers).1 (all refl),
)
keys_iff (some enc) triggers = (λ e f. cc, λ all. refl)

-- A configuration is accepted exactly if there is an `api` component where it declares messages, an
-- indefinite retransmission waits at least a second, each typed trigger names a declared message, a
-- window that is not zero has a clock, and no trigger requires encryption where there is no key.
pub final_validate_iff :
    (has_api : Bool) (c : Config)
    → (final_validate has_api c ≡ ok c) ↔ (
        (is_empty c.messages ≡ false → has_api ≡ true)
        × (eq_ℤ c.retransmit_count minus_one ≡ true → 1000 ≤ c.retransmit_delay)
        × All (IsDeclared (map message_id c.messages)) c.on_message
        × HasClock c.encryption
        × (c.encryption ≡ none → All IsOpen c.on_message))
unfolding final_validate
final_validate_iff has_api c =
    let references = check_references_iff (map message_id c.messages) c.on_message in
    let clock = clock_iff c.encryption in
    let keys = keys_iff c.encryption c.on_message in
    (
      λ e. (
        λ f. ground (arith, e, f),
        λ f. ground (arith, e, f),
        references.0 (ground (arith, e)),
        clock.0 (ground (arith, e)),
        keys.0 (ground (arith, e)),
      ),
      λ (api, spaced, declared, clocked, keyed).
          let a = references.1 declared in
          let b = clock.1 clocked in let d = keys.1 keyed in ground (arith, api, spaced, a, b, d),
    )
