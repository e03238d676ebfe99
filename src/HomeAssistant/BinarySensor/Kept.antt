-- ===== src/HomeAssistant/BinarySensor/Kept.antt =====
-- The timers that a cancelled handle leaves, where each pending timer has its handle kept.
use mathlib.Core.List.{Memᴰ}
use mathlib.Core.Path.{subst}
use esphome_multicast_pubsub.Prelude.{
  ℕ, ◌≡◌, sym, ap, true, false, Option, none, some, List, [], ◌∷◌, All, arith, ◌==◌, Bool-cases,
  inl, inr,
}
use esphome_multicast_pubsub.HomeAssistant.BinarySensor.{
  Callback, expired, off, Timer, cancel_timer, cancel_kept,
}

-- The handle that the sensor keeps for a callback.
abbrev pub kept : Option ℕ → Option ℕ → Callback → Option ℕ
kept expire off_delay expired = expire
kept expire off_delay off = off_delay

-- Every pending timer is the one whose handle is kept for its callback.
abbrev pub AreKept : Option ℕ → Option ℕ → List Timer → Type 0
AreKept expire off_delay = All (λ t. kept expire off_delay t.run ≡ some t.handle)

pub All-Mem {ℓ κ} : {A : Type ℓ} (P : A → Type κ) (xs : List A) {a : A} → Memᴰ a xs → All P xs → P a
All-Mem P [] m p = elim m [ ]
All-Mem P (x ∷ xs) (Memᴰ.head e) p = subst P (sym e) p.0
All-Mem P (x ∷ xs) (Memᴰ.tail m) p = All-Mem P xs m p.1

-- The timers that a cancelled handle leaves.
cancel_timer-All {κ} :
    (P Q : Timer → Type κ) (h : ℕ) (timers : List Timer)
    → ((t : Timer) → P t → (t.handle == h) ≡ false → Q t)
    → All P timers
    → All Q (cancel_timer h timers)
unfolding cancel_timer
cancel_timer-All P Q h [] keeps p = tt
cancel_timer-All P Q h (t ∷ timers) keeps (first, p) = elim (Bool-cases (t.handle == h)) [
  | inl same ↦ simp same (cancel_timer-All P Q h timers keeps p)
  | inr other ↦ simp other (keeps t first other, cancel_timer-All P Q h timers keeps p)
]

-- A timer with another handle is not for the callback whose handle this is.
apart : (h n : ℕ) → some h ≡ some n → (n == h) ≡ false → false ≡ true
apart h n e other =
    let same : h ≡ n = ap (λ o. elim o [ some x ↦ x | none ↦ h ]) e in ground (arith, same, other)

expire_left :
    (h n : ℕ) (off_delay : Option ℕ) (run : Callback)
    → kept (some h) off_delay run ≡ some n
    → (n == h) ≡ false
    → kept none off_delay run ≡ some n
expire_left h n off_delay expired e other = let wrong = apart h n e other in cc
expire_left h n off_delay off e other = e

off_left :
    (h n : ℕ) (expire : Option ℕ) (run : Callback)
    → kept expire (some h) run ≡ some n
    → (n == h) ≡ false
    → kept expire none run ≡ some n
off_left h n expire expired e other = e
off_left h n expire off e other = let wrong = apart h n e other in cc

-- Once the timer of a callback is cancelled, none is left for it.
pub cancel_expire-AreKept :
    (expire off_delay : Option ℕ) (timers : List Timer)
    → AreKept expire off_delay timers
    → AreKept none off_delay (cancel_kept expire timers)
unfolding cancel_kept
cancel_expire-AreKept none off_delay timers p = p
cancel_expire-AreKept (some h) off_delay timers p =
    cancel_timer-All _ _ h timers (λ t e other. expire_left h t.handle off_delay t.run e other) p

pub cancel_off-AreKept :
    (expire off_delay : Option ℕ) (timers : List Timer)
    → AreKept expire off_delay timers
    → AreKept expire none (cancel_kept off_delay timers)
unfolding cancel_kept
cancel_off-AreKept expire none timers p = p
cancel_off-AreKept expire (some h) timers p =
    cancel_timer-All _ _ h timers (λ t e other. off_left h t.handle expire t.run e other) p

-- A handle may be set for a callback that has no timer.
pub expire_set :
    (n h : ℕ) (off_delay : Option ℕ) (run : Callback)
    → kept none off_delay run ≡ some n
    → kept (some h) off_delay run ≡ some n
expire_set n h off_delay expired e = cc
expire_set n h off_delay off e = e

pub off_set :
    (n h : ℕ) (expire : Option ℕ) (run : Callback)
    → kept expire none run ≡ some n
    → kept expire (some h) run ≡ some n
off_set n h expire expired e = e
off_set n h expire off e = cc
