-- ===== src/HomeAssistant/BinarySensor/OffDelay.antt =====
-- The automatic off of a binary sensor.
use mathlib.Core.List.{Memᴰ}
use mathlib.Core.Path.{subst}
use esphome_multicast_pubsub.Prelude.{
  ℕ, ◌+◌, ◌≡◌, refl, sym, ap, ◌∙◌, Bool, true, false, Option, none, some, List, [], ◌∷◌, ◌++◌,
}
use esphome_multicast_pubsub.Wire.{bytes_eq}
use esphome_multicast_pubsub.Client.Publish.Chains.{bytes_eq_refl}
use esphome_multicast_pubsub.HomeAssistant.BinarySensor.{
  off, Timer, Settings, BinarySensor, write_state, cancel_kept, call_later, reset_expiry, arm,
  arm_off_delay, switched, message, run_callback, run_timer,
}

last-Mem {ℓ} : {A : Type ℓ} (xs : List A) (x : A) → Memᴰ x (xs ++ x ∷ [])
last-Mem [] x = Memᴰ.head refl
last-Mem (y ∷ xs) x = Memᴰ.tail (last-Mem xs x)

-- A pending timer that turns the sensor off after the delay, and whose handle is kept.
abbrev pub WillTurnOff : BinarySensor → ℕ → Type 0
WillTurnOff s due =
    (t : Timer) × Memᴰ t s.timers
    × (t.run ≡ off)
    × (t.due ≡ due)
    × (s.off_delay_cancel ≡ some t.handle)
    × ((run_timer s t).is_on ≡ some false)

-- What the expiry leaves as it is.
abbrev Keeps : BinarySensor → BinarySensor → Type 0
Keeps s t = (t.settings ≡ s.settings) × (t.clock ≡ s.clock) × (t.is_on ≡ s.is_on)

option-Keeps :
    (o : Option ℕ) (s : BinarySensor) (f : ℕ → BinarySensor)
    → ((n : ℕ) → Keeps s (f n))
    → Keeps s (elim o [ none ↦ s | some n ↦ f n ])
option-Keeps none s f p = (refl, refl, refl)
option-Keeps (some n) s f p = p n

reset_expiry-Keeps : (s : BinarySensor) → Keeps s (reset_expiry s)
unfolding reset_expiry call_later
reset_expiry-Keeps s = option-Keeps s.settings.expire_after s _ (λ after. (refl, refl, refl))

at_on :
    (o : Option Bool) (s t : BinarySensor)
    → o ≡ some true
    → (let r : BinarySensor = elim o [ none ↦ s | some false ↦ s | some true ↦ t ] in r) ≡ t
at_on none s t e = cc
at_on (some false) s t e =
    let wrong : false ≡ true = ap (λ x. elim x [ some b ↦ b | none ↦ false ]) e in cc
at_on (some true) s t e = refl

at_some :
    (o : Option ℕ) (s : BinarySensor) (f : ℕ → BinarySensor) (n : ℕ)
    → o ≡ some n
    → (let r : BinarySensor = elim o [ none ↦ s | some m ↦ f m ] in r) ≡ f n
at_some none s f n e = cc
at_some (some m) s f n e = ap (λ x. elim x [ some k ↦ f k | none ↦ f m ]) e

-- A sensor that is on and has no timer for the automatic off is given one.
abbrev armed : BinarySensor → ℕ → BinarySensor
armed s delay = record (call_later s delay off) { off_delay_cancel = some s.next_handle }

abbrev idle : BinarySensor → BinarySensor
idle s = record s { timers = cancel_kept s.off_delay_cancel s.timers; off_delay_cancel = none }

arm_off_delay-armed :
    (s : BinarySensor) (delay : ℕ)
    → s.settings.off_delay ≡ some delay
    → s.is_on ≡ some true
    → arm_off_delay s ≡ armed (idle s) delay
unfolding arm_off_delay arm
arm_off_delay-armed s delay delayed on =
    at_some s.settings.off_delay s (λ d. arm (idle s) d) delay delayed
    ∙ at_on s.is_on (idle s) (armed (idle s) delay) on

armed-WillTurnOff :
    (s : BinarySensor) (delay : ℕ) → WillTurnOff (write_state (armed s delay)) (s.clock + delay)
unfolding call_later run_timer run_callback write_state
armed-WillTurnOff s delay = (
  record { handle = s.next_handle; due = s.clock + delay; run = off },
  last-Mem s.timers _,
  refl,
  refl,
  refl,
  refl,
)

switched_lem :
    (s : BinarySensor) (delay : ℕ)
    → s.settings.off_delay ≡ some delay
    → ((switched s true).is_on ≡ some true) × WillTurnOff (switched s true) (s.clock + delay)
unfolding switched write_state call_later
switched_lem s delay delayed =
    let on : BinarySensor = record s { is_on = some true } in
    let (settings, clock, is_on) = reset_expiry-Keeps on in
    let same =
      arm_off_delay-armed (reset_expiry on) delay
        (ap (λ (x : Settings). x.off_delay) settings ∙ delayed) is_on in
    (
      ap (λ (x : BinarySensor). x.is_on) same ∙ is_on,
      subst (λ (x : BinarySensor). WillTurnOff (write_state x) (s.clock + delay)) (sym same)
          (subst (λ n. WillTurnOff (write_state (armed (idle (reset_expiry on)) delay)) (n + delay))
            clock (armed-WillTurnOff (idle (reset_expiry on)) delay)),
    )

-- A payload that is on, with a delay: the sensor is on, and a pending timer, due after the delay, turns
-- it off.
pub message-WillTurnOff :
    (s : BinarySensor) (delay : ℕ)
    → s.settings.off_delay ≡ some delay
    → let armed = message s (some s.settings.payload_on) in
      (armed.is_on ≡ some true) × WillTurnOff armed (s.clock + delay)
unfolding message
message-WillTurnOff s delay delayed =
    let on : bytes_eq s.settings.payload_on s.settings.payload_on ≡ true =
      bytes_eq_refl s.settings.payload_on in
    simp on (switched_lem s delay delayed)
