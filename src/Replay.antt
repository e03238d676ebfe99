-- ===== src/Replay.antt =====
-- `ReplayGuard` of python/mpubsub/wire.py. Times are numbers of seconds; a nonce is `None` where the
-- packet has none. `now - timestamp` and `now - window` of the source may be negative: the distance
-- is taken on the right side, and a negative cutoff is below every timestamp, as 0 is.
pub mod Invariant
pub mod Remembered
pub mod NoReplay
pub mod Decision
use esphome_multicast_pubsub.Prelude.{
  ℕ, zero, suc, ◌+◌, ◌-◌, Bool, true, false, not, Option, none, some, List, [], ◌∷◌, ◌++◌, length,
  ltb, leb, ◌==◌, if◌then◌else◌,
}

-- nonce == nonce, where a nonce may be `None`
abbrev pub nonce_eq : Option ℕ → Option ℕ → Bool
nonce_eq none none = true
nonce_eq none (some b) = false
nonce_eq (some a) none = false
nonce_eq (some a) (some b) = a == b

-- The dictionary `_seen`, and the entries of the queue `_order`: a nonce with its timestamp.
abbrev pub Entries : Type 0
Entries = List (Option ℕ × ℕ)

-- nonce in seen
unfoldable pub contains : Option ℕ → Entries → Bool
contains n [] = false
contains n ((m, t) ∷ seen) = if nonce_eq m n then true else contains n seen

-- seen.pop(nonce, None)
unfoldable pub remove : Option ℕ → Entries → Entries
remove n [] = []
remove n ((m, t) ∷ seen) = let rest = remove n seen in if nonce_eq m n then rest else (m, t) ∷ rest

-- seen[nonce] = timestamp
unfoldable pub insert : Option ℕ → ℕ → Entries → Entries
unfolding remove
insert n t seen = (n, t) ∷ remove n seen

pub record ReplayGuard : Type 0 where
  pub window : ℕ
  pub max_entries : ℕ
  pub order : Entries
  pub seen : Entries

unfoldable pub init : ℕ → ℕ → ReplayGuard
init window_seconds max_entries = record {
  window = window_seconds;
  max_entries = max_entries;
  order = [];
  seen = [];
}

-- The loop of `_prune`: the queue and the dictionary that it leaves.
unfoldable pub prune_loop : ℕ → Entries → Entries → Entries × Entries
unfolding remove
prune_loop cutoff [] seen = ([], seen)
prune_loop cutoff ((n, t) ∷ order) seen =
    let rest = prune_loop cutoff order (remove n seen) in
    if ltb t cutoff then rest else ((n, t) ∷ order, seen)

unfoldable pub prune : ReplayGuard → ℕ → ReplayGuard
unfolding prune_loop
prune g now =
    let (order, seen) = prune_loop (now - g.window) g.order g.seen in
    record g { order = order; seen = seen }

-- if len(order) > max_entries: order.popleft(), and its nonce is dropped from the dictionary
unfoldable pub evict : ℕ → Entries → Entries → Entries × Entries
unfolding remove
evict max_entries [] seen = ([], seen)
evict max_entries ((n, t) ∷ order) seen =
    if ltb max_entries (length ((n, t) ∷ order))
    then (order, remove n seen)
    else ((n, t) ∷ order, seen)

-- The end of `accept`, once the packet is found fresh.
unfoldable pub record_fresh : ReplayGuard → ℕ → Option ℕ → Bool × ReplayGuard
unfolding contains insert evict
record_fresh g timestamp nonce =
    if contains nonce g.seen
    then (false, g)
    else (let (order, seen) =
          evict g.max_entries (g.order ++ (nonce, timestamp) ∷ [])
            (insert nonce timestamp g.seen) in
        (true, record g { order = order; seen = seen }))

-- abs(now - timestamp)
abbrev pub distance : ℕ → ℕ → ℕ
distance now timestamp = if leb timestamp now then now - timestamp else timestamp - now

unfoldable pub accept : ReplayGuard → ℕ → Bool → Option ℕ → Option ℕ → Bool × ReplayGuard
accept g now _ none _ = if g.window == 0 then (true, g) else (false, g)
accept g now now_valid (some timestamp) nonce =
    if g.window == 0
    then (true, g)
    else if not now_valid
    then (false, g)
    else if timestamp == 0
    then (false, g)
    else if ltb g.window (distance now timestamp)
    then (false, g)
    else record_fresh (prune g now) timestamp nonce
