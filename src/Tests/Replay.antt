-- ===== src/Tests/Replay.antt =====
-- The replay guard: each property at one sequence of packets.
use esphome_multicast_pubsub.Prelude.{
  ◌<◌, ◌≤◌, ◌≡◌, ◌↔◌, refl, true, false, some, List, [], ◌∷◌, arith,
}
use esphome_multicast_pubsub.Replay.{
  ReplayGuard, init, accept, record_fresh, contains, prune, distance,
}
use esphome_multicast_pubsub.Replay.Invariant.{IsConsistent, init-IsConsistent, accept-IsConsistent}
use esphome_multicast_pubsub.Replay.NoReplay.{Packet, run, no_replay}
use esphome_multicast_pubsub.Replay.Decision.{accept_iff}

abbrev fresh : ReplayGuard
fresh = record { window = 60; max_entries = 4; order = []; seen = [] }

fresh-IsConsistent : IsConsistent fresh
unfolding init
fresh-IsConsistent = init-IsConsistent 60 4

abbrev one_seen : ReplayGuard
one_seen = record fresh { order = (some 7, 990) ∷ []; seen = (some 7, 990) ∷ [] }

accepts : accept fresh 1000 true (some 990) (some 7) ≡ (true, one_seen)
unfolding accept record_fresh prune
accepts = refl

abbrev between : List Packet
between =
    record { now = 1001; now_valid = true; timestamp = some 1000; nonce = some 8 }
    ∷ record { now = 1049; now_valid = true; timestamp = some 1050; nonce = some 9 }
    ∷ []

no_replay_example : (accept (run one_seen between) 1050 true (some 990) (some 7)).0 ≡ false
no_replay_example =
    no_replay fresh 1000 990 true (some 7) between 1050 true fresh-IsConsistent (omega arith)
      accepts (omega arith) (omega arith)

accept-IsConsistent_example : IsConsistent (accept fresh 1000 true (some 990) (some 7)).1
accept-IsConsistent_example =
    accept-IsConsistent fresh 1000 true (some 990) (some 7) fresh-IsConsistent

accept_iff_example : ((accept one_seen 1000 true (some 990) (some 7)).0 ≡ true) ↔ (
    (true ≡ true)
    × (0 < 990)
    × (distance 1000 990 ≤ 60)
    × (contains (some 7) (prune one_seen 1000).seen ≡ false))
accept_iff_example = accept_iff one_seen 1000 true 990 (some 7) (omega arith)
