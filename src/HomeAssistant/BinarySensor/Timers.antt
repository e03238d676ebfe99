-- ===== src/HomeAssistant/BinarySensor/Timers.antt =====
-- Which timers a binary sensor has.
use mathlib.Core.List.{Memᴰ}
use mathlib.Core.Path.{subst}
use esphome_multicast_pubsub.Prelude.{
  ℕ, ◌+◌, ◌≡◌, refl, Bool, true, false, Option, none, some, List, [], ◌∷◌, All-append,
  if◌then◌else◌,
}
use esphome_multicast_pubsub.Wire.{bytes_eq}
use esphome_multicast_pubsub.Client.Publish.Chains.{All-map₁}
use esphome_multicast_pubsub.HomeAssistant.BinarySensor.{
  Callback, expired, off, Timer, Settings, BinarySensor, new_sensor, write_state, cancel_kept,
  call_later, reset_expiry, arm, arm_off_delay, switched, message, availability, run_callback,
  run_timer, will_remove,
}
use esphome_multicast_pubsub.HomeAssistant.BinarySensor.Kept.{
  kept, AreKept, All-Mem, cancel_expire-AreKept, cancel_off-AreKept, expire_set, off_set,
}

abbrev pub IsTidy : BinarySensor → Type 0
IsTidy s = AreKept s.expire_cancel s.off_delay_cancel s.timers

-- What a sensor may do, in any order: a payload comes, availability changes, a pending timer runs,
-- time passes.
pub data Step (s : BinarySensor) : BinarySensor → Type 0 where
  receives : (payload : Option (List ℕ)) → Step s (message s payload)
  hears : (payload : Option (List ℕ)) → Step s (availability s payload)
  runs : (t : Timer) → Memᴰ t s.timers → Step s (run_timer s t)
  waits : (n : ℕ) → Step s (record s { clock = s.clock + n })

pub data Reachable : BinarySensor → Type 0 where
  created : (settings : Settings) → Reachable (new_sensor settings)
  stepped : {s t : BinarySensor} → Reachable s → Step s t → Reachable t

option-IsTidy :
    (o : Option ℕ) (s : BinarySensor) (f : ℕ → BinarySensor)
    → IsTidy s
    → ((n : ℕ) → IsTidy (f n))
    → IsTidy (elim o [ none ↦ s | some n ↦ f n ])
option-IsTidy none s f p q = p
option-IsTidy (some n) s f p q = q n

reset_expiry-IsTidy : (s : BinarySensor) → IsTidy s → IsTidy (reset_expiry s)
unfolding reset_expiry call_later
reset_expiry-IsTidy s p = option-IsTidy s.settings.expire_after s _ p (λ after.
    All-append _ (cancel_kept s.expire_cancel s.timers) _
      (All-map₁ (λ t e. expire_set t.handle s.next_handle s.off_delay_cancel t.run e)
        (cancel_kept s.expire_cancel s.timers)
        (cancel_expire-AreKept s.expire_cancel s.off_delay_cancel s.timers p))
      (refl, tt))

on-IsTidy :
    (o : Option Bool) (s t : BinarySensor)
    → IsTidy s
    → IsTidy t
    → IsTidy (elim o [ none ↦ s | some false ↦ s | some true ↦ t ])
on-IsTidy none s t p q = p
on-IsTidy (some false) s t p q = p
on-IsTidy (some true) s t p q = q

arm-IsTidy :
    (s : BinarySensor) (delay : ℕ)
    → IsTidy s
    → AreKept s.expire_cancel none s.timers
    → IsTidy (arm s delay)
unfolding arm call_later
arm-IsTidy s delay p q = on-IsTidy s.is_on s _ p (
    All-append _ s.timers _
      (All-map₁ (λ t e. off_set t.handle s.next_handle s.expire_cancel t.run e) s.timers q)
      (refl, tt))

arm_off_delay-IsTidy : (s : BinarySensor) → IsTidy s → IsTidy (arm_off_delay s)
unfolding arm_off_delay
arm_off_delay-IsTidy s p = option-IsTidy s.settings.off_delay s _ p (λ delay.
    arm-IsTidy
      (record s { timers = cancel_kept s.off_delay_cancel s.timers; off_delay_cancel = none }) delay
      (cancel_off-AreKept s.expire_cancel s.off_delay_cancel s.timers p)
      (cancel_off-AreKept s.expire_cancel s.off_delay_cancel s.timers p))

switched-IsTidy : (s : BinarySensor) (on : Bool) → IsTidy s → IsTidy (switched s on)
unfolding switched write_state
switched-IsTidy s on p =
    arm_off_delay-IsTidy (reset_expiry (record s { is_on = some on }))
      (reset_expiry-IsTidy (record s { is_on = some on }) p)

if-IsTidy :
    (test : Bool) (s t : BinarySensor) → IsTidy s → IsTidy t → IsTidy (if test then s else t)
if-IsTidy true s t p q = p
if-IsTidy false s t p q = q

message-IsTidy :
    (s : BinarySensor) (payload : Option (List ℕ)) → IsTidy s → IsTidy (message s payload)
unfolding message
message-IsTidy s none p = p
message-IsTidy s (some payload) p =
    if-IsTidy (bytes_eq payload s.settings.payload_on) _ _ (switched-IsTidy s true p)
      (if-IsTidy (bytes_eq payload s.settings.payload_off) _ s (switched-IsTidy s false p) p)

availability-IsTidy :
    (s : BinarySensor) (payload : Option (List ℕ)) → IsTidy s → IsTidy (availability s payload)
unfolding availability write_state
availability-IsTidy s none p = p
availability-IsTidy s (some payload) p =
    if-IsTidy (bytes_eq payload s.settings.payload_available) _ _ p
      (if-IsTidy (bytes_eq payload s.settings.payload_not_available) _ s p p)

run_timer-IsTidy :
    (s : BinarySensor) (h : ℕ) (run : Callback) (due : ℕ)
    → kept s.expire_cancel s.off_delay_cancel run ≡ some h
    → IsTidy s
    → IsTidy (run_timer s (record { handle = h; due = due; run = run }))
unfolding run_timer run_callback write_state cancel_kept
run_timer-IsTidy s h expired due e p =
    cancel_expire-AreKept (some h) s.off_delay_cancel s.timers
      (subst (λ o. AreKept o s.off_delay_cancel s.timers) e p)
run_timer-IsTidy s h off due e p =
    cancel_off-AreKept s.expire_cancel (some h) s.timers
      (subst (λ o. AreKept s.expire_cancel o s.timers) e p)

Step-IsTidy : {s t : BinarySensor} → Step s t → IsTidy s → IsTidy t
Step-IsTidy {s} (receives payload) p = message-IsTidy s payload p
Step-IsTidy {s} (hears payload) p = availability-IsTidy s payload p
Step-IsTidy {s} (runs t pending) p =
    run_timer-IsTidy s t.handle t.run t.due (All-Mem _ s.timers pending p) p
Step-IsTidy (waits n) p = p

Reachable-IsTidy : {s : BinarySensor} → Reachable s → IsTidy s
unfolding new_sensor
Reachable-IsTidy (created settings) = tt
Reachable-IsTidy (stepped r step) = Step-IsTidy step (Reachable-IsTidy r)

none_left : (timers : List Timer) → AreKept none none timers → timers ≡ []
none_left [] p = refl
none_left (t ∷ timers) (e, p) = let wrong = unkept t.run e in cc
  where
    unkept : (run : Callback) {n : ℕ} → kept none none run ≡ some n → false ≡ true
    unkept expired e = cc
    unkept off e = cc

-- In every state that a binary sensor reaches, each pending timer is the one whose handle it keeps for
-- that callback, and removing the sensor leaves no timer pending.
pub will_remove_cancels_all :
    {s : BinarySensor} → Reachable s → IsTidy s × ((will_remove s).timers ≡ [])
unfolding will_remove
will_remove_cancels_all {s} r =
    let tidy = Reachable-IsTidy r in
    (
      tidy,
      none_left _ (
          cancel_off-AreKept none s.off_delay_cancel (cancel_kept s.expire_cancel s.timers)
            (cancel_expire-AreKept s.expire_cancel s.off_delay_cancel s.timers tidy)),
    )
