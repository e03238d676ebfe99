-- ===== src/Replay/Decision.antt =====
-- What `ReplayGuard.accept` answers.
use esphome_multicast_pubsub.Prelude.{ℕ, ◌≤◌, ◌<◌, ◌≡◌, ◌↔◌, Bool, true, false, Option, some, arith}
use esphome_multicast_pubsub.Replay.{ReplayGuard, contains, prune, record_fresh, accept, distance}

record_fresh_answer :
    (g : ReplayGuard) (t : ℕ) (n : Option ℕ)
    → ((record_fresh g t n).0 ≡ true) ↔ (contains n g.seen ≡ false)
unfolding record_fresh
record_fresh_answer g t n = (λ h. ground arith, λ h. ground arith)

-- With the protection on, a packet is accepted exactly if the local clock is valid, the timestamp
-- is not 0 and within the window of the clock on either side, and the nonce is not among those that
-- are left after pruning.
pub accept_iff :
    (g : ReplayGuard) (now : ℕ) (now_valid : Bool) (t : ℕ) (n : Option ℕ)
    → 0 < g.window
    → ((accept g now now_valid (some t) n).0 ≡ true) ↔ (
        (now_valid ≡ true)
        × (0 < t)
        × (distance now t ≤ g.window)
        × (contains n (prune g now).seen ≡ false))
unfolding accept
accept_iff g now now_valid t n on = (
  λ h. ground (arith, record_fresh_answer (prune g now) t n),
  λ h. ground (arith, record_fresh_answer (prune g now) t n),
)
