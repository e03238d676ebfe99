-- ===== src/Client/Run/Reached.antt =====
-- What holds of the timers in every state that a client reaches.
use mathlib.Core.Path.{subst}
use esphome_multicast_pubsub.Prelude.{
  ℕ, ◌≤◌, ◌≡◌, sym, Bool, not, ◌&&◌, ◌||◌, Option, List, [], All-get_or, Result, ok, raise,
  value_error, raise_if, ◌>>◌, >>=-eq-ok, ltb, ◌==◌, get_or,
}
use esphome_multicast_pubsub.Prelude.Int.{ℤ, pos, eq_ℤ, ltb_ℤ}
use esphome_multicast_pubsub.Topic.{Hashes}
use esphome_multicast_pubsub.Aead.{FastCipher}
use esphome_multicast_pubsub.Wire.{Env}
use esphome_multicast_pubsub.Client.Run.Subscriptions.{subscribe-preserves, unsubscribe-preserves}
use esphome_multicast_pubsub.Rules.{TextArg}
use esphome_multicast_pubsub.Rules.Aio.{ScopeArg, resolve_scope}
use esphome_multicast_pubsub.Client.{
  Client, Settings, Network, KeyArg, init, initial, resolve_key, is_falsy, retransmit_indefinite,
  min_indefinite_delay,
}
use esphome_multicast_pubsub.Client.Publish.{start, stop, Payload, publish}
use esphome_multicast_pubsub.Client.Subscribe.{
  subscribe, join_group, append_callback, unsubscribe, forget_topic,
}
use esphome_multicast_pubsub.Client.Publish.Chains.{IsListed, IsTracked, HasTrackedTimers, chains}
use esphome_multicast_pubsub.Client.Publish.Tracked.{
  transmit-HasTrackedTimers, run_timer-HasTrackedTimers,
}
use esphome_multicast_pubsub.Client.Run.{
  Step, Reachable, starts, stops, elapses, runs_timer, publishes, subscribes, unsubscribes,
  receives, created, stepped, no_timer,
}
use esphome_multicast_pubsub.Client.Run.Preserve.{
  if-both, publish-preserves, handle_datagram-preserves,
}
use esphome_multicast_pubsub.Client.Run.Timers.{stop-timers, chains-bound}

publish-HasTrackedTimers :
    (h : Hashes) (fast : Option FastCipher) (net : Network) (env : Env) (c : Client)
    (topic : TextArg) (payload : Payload) (qos : ℤ)
    → HasTrackedTimers c
    → HasTrackedTimers (publish h fast net env c topic payload qos).1
publish-HasTrackedTimers h fast net env c topic payload qos p =
    publish-preserves HasTrackedTimers (λ c g q. q) h fast net (transmit-HasTrackedTimers net) env c
      topic payload qos p

join_group-HasTrackedTimers :
    (h : Hashes) (net : Network) (c : Client) (topic group : List ℕ)
    → HasTrackedTimers c
    → HasTrackedTimers (join_group h net c topic group).1
unfolding join_group
join_group-HasTrackedTimers h net c topic group p =
    if-both (λ (r : Result ℕ × Client). HasTrackedTimers r.1) (net.join group) p p

subscribe-HasTrackedTimers :
    (h : Hashes) (net : Network) (is_codec : ℕ → Bool) (c : Client) (topic : TextArg)
    (encoding : Option ℕ)
    → HasTrackedTimers c
    → HasTrackedTimers (subscribe h net is_codec c topic encoding).1
unfolding append_callback
subscribe-HasTrackedTimers h net is_codec c topic encoding p =
    subscribe-preserves HasTrackedTimers (λ c g q. q) h net (join_group-HasTrackedTimers h net)
      (λ c o e q. q) is_codec c topic encoding p

unsubscribe-HasTrackedTimers :
    (net : Network) (c : Client) (topic : List ℕ) (token : ℕ)
    → HasTrackedTimers c
    → HasTrackedTimers (unsubscribe net c topic token)
unfolding forget_topic
unsubscribe-HasTrackedTimers net c topic token p =
    unsubscribe-preserves HasTrackedTimers net (λ c o left q. q) (λ c t o q. q) c topic token p

Step-HasTrackedTimers :
    (h : Hashes) (is_codec : ℕ → Bool) {c d : Client}
    → Step h is_codec c d
    → HasTrackedTimers c
    → HasTrackedTimers d
unfolding start stop
Step-HasTrackedTimers h is_codec (starts made c) p =
    if-both (λ (r : Result (Unit {0}) × Client). HasTrackedTimers r.1) made p p
Step-HasTrackedTimers h is_codec (stops c) p =
    subst (λ ts. IsTracked ts [] [] c.next_handle) (sym (stop-timers c p)) (tt, tt, tt)
Step-HasTrackedTimers h is_codec (elapses time c) p = p
Step-HasTrackedTimers h is_codec (runs_timer net c i inside due) p =
    let listed =
      All-get_or no_timer (λ t. IsListed c.indefinite c.finite t.handle t.action) c.timers i inside
        p.0 in
    run_timer-HasTrackedTimers net c (get_or c.timers i no_timer) listed p
Step-HasTrackedTimers h is_codec (publishes w env c topic payload qos) p =
    publish-HasTrackedTimers h w.fast w.net env c topic payload qos p
Step-HasTrackedTimers h is_codec (subscribes net c topic encoding) p =
    subscribe-HasTrackedTimers h net is_codec c topic encoding p
Step-HasTrackedTimers h is_codec (unsubscribes net c topic token) p =
    unsubscribe-HasTrackedTimers net c topic token p
Step-HasTrackedTimers h is_codec (receives w now c packet same) p =
    handle_datagram-preserves HasTrackedTimers w (publish-HasTrackedTimers w.hashes w.fast w.net)
      (unsubscribe-HasTrackedTimers w.net) (λ c g q. q) now c packet p

>>-eq-ok {ℓ} :
    {A : Type ℓ} (check : Result (Unit {0})) (next : Result A) {result : A}
    → (check >> next) ≡ ok result
    → next ≡ ok result
>>-eq-ok (raise why) next e = cc
>>-eq-ok (ok _) next e = e

pub init-initial :
    (h : Hashes) (scope : ScopeArg) (key : KeyArg) (window : ℕ) (count : ℤ) (delay : ℕ)
    (promote : Bool) {c : Client}
    → init h scope key window count delay promote ≡ ok c
    → (s : Settings) × (c ≡ initial s window)
unfolding init
init-initial h scope key window count delay promote e =
    let (nibble, _, e₁) = >>=-eq-ok (resolve_scope scope) _ e in
    let s : Settings = record {
      scope = nibble;
      key = resolve_key h key;
      retransmit_count = count;
      retransmit_delay = delay;
      promote_qos = promote;
    } in
    let first = eq_ℤ count retransmit_indefinite && ltb delay min_indefinite_delay in
    let second = eq_ℤ count (pos 0) || ltb_ℤ count retransmit_indefinite in
    let third = not (window == 0) && is_falsy (resolve_key h key) in
    let last =
      >>-eq-ok (raise_if third value_error) (ok (initial s window))
        (>>-eq-ok (raise_if second value_error) _ (>>-eq-ok (raise_if first value_error) _ e₁)) in
    (s, cc)

-- In every state that a client reaches, each pending timer is in the table by which it is cancelled.
pub Reachable-HasTrackedTimers :
    (h : Hashes) (is_codec : ℕ → Bool) {c : Client} → Reachable h is_codec c → HasTrackedTimers c
Reachable-HasTrackedTimers h is_codec (created scope key window count delay promote e) =
    let (s, same) = init-initial h scope key window count delay promote e in
    subst HasTrackedTimers (sym same) (tt, tt, tt)
Reachable-HasTrackedTimers h is_codec (stepped before step) =
    Step-HasTrackedTimers h is_codec step (Reachable-HasTrackedTimers h is_codec before)

-- In every state that a client reaches, at most one pending timer continues an indefinite chain for
-- a topic.
pub chains_at_most_once :
    (h : Hashes) (is_codec : ℕ → Bool) {c : Client} (topic : List ℕ)
    → Reachable h is_codec c
    → chains topic c.timers ≤ 1
chains_at_most_once h is_codec topic reached =
    let p = Reachable-HasTrackedTimers h is_codec reached in chains-bound topic _ _ _ p.0 p.2

-- In every state that a client reaches, `stop` leaves no timer pending.
pub stop_cancels_all :
    (h : Hashes) (is_codec : ℕ → Bool) {c : Client} → Reachable h is_codec c → (stop c).timers ≡ []
stop_cancels_all h is_codec reached = stop-timers _ (Reachable-HasTrackedTimers h is_codec reached)
