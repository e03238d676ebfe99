-- ===== src/Client/Run/Duplicate.antt =====
-- A retransmitted datagram at its receiver.
use mathlib.Core.Path.{subst}
use esphome_multicast_pubsub.Prelude.{
  ℕ, ◌≤◌, ◌<◌, ◌≡◌, refl, sym, ap, ◌∙◌, true, false, Option, none, some, List, [], ok, arith,
}
use esphome_multicast_pubsub.Wire.{DecodedMessage, decode}
use esphome_multicast_pubsub.Replay.{ReplayGuard, accept}
use esphome_multicast_pubsub.Replay.Invariant.{IsConsistent}
use esphome_multicast_pubsub.Replay.NoReplay.{run, no_replay}
use esphome_multicast_pubsub.Client.{Client, Settings}
use esphome_multicast_pubsub.Client.Subscribe.{forget_topic}
use esphome_multicast_pubsub.Client.Receive.{World, admit, deliver, handle_datagram}
use esphome_multicast_pubsub.Client.Run.Preserve.{publish-preserves, deliver-preserves}
use esphome_multicast_pubsub.Client.Run.Sending.{transmit-preserves}
use esphome_multicast_pubsub.Client.Run.Subscriptions.{unsubscribe-preserves}

-- With the key and the guard of a state.
abbrev HasGuard : Settings → ReplayGuard → Client → Type 0
HasGuard s g c = (c.settings ≡ s) × (c.replay ≡ g)

module _ (w : World) where
  -- Callbacks do not reach the settings or the guard.
  deliver-HasGuard :
      (s : Settings) (g : ReplayGuard) (c : Client) (msg : DecodedMessage)
      → HasGuard s g c
      → HasGuard s g (deliver w c msg).0
  unfolding forget_topic
  deliver-HasGuard s g c msg p =
      deliver-preserves (HasGuard s g) w
        (publish-preserves (HasGuard s g) (λ c _ q. q) w.hashes w.fast w.net
          (transmit-preserves (HasGuard s g) (λ c _ _ _ _ _ _ q. q) w.net))
        (unsubscribe-preserves (HasGuard s g) w.net (λ c _ _ q. q) (λ c _ _ q. q)) c msg p

  pub admitted-handle :
      (now : ℕ) (c : Client) (packet : List ℕ) {msg : DecodedMessage}
      → decode w.fast packet c.settings.key ≡ ok msg
      → (admit w c now msg).0 ≡ true
      → handle_datagram w now c packet
        ≡ (ok (deliver w (admit w c now msg).1 msg).1, (deliver w (admit w c now msg).1 msg).0)
  unfolding handle_datagram
  admitted-handle now c packet decoded e = rw (decoded, handle_datagram) (rw e refl)

  pub rejected-handle :
      (now : ℕ) (c : Client) (packet : List ℕ) {msg : DecodedMessage}
      → decode w.fast packet c.settings.key ≡ ok msg
      → (admit w c now msg).0 ≡ false
      → (handle_datagram w now c packet).0 ≡ ok []
  unfolding handle_datagram
  rejected-handle now c packet decoded e = rw (decoded, handle_datagram) (rw e refl)

  admit-encrypted :
      (c : Client) (now : ℕ) (msg : DecodedMessage)
      → msg.was_encrypted ≡ true
      → (let checked = accept c.replay now true msg.timestamp msg.nonce in
          admit w c now msg ≡ (checked.0, record c { replay = checked.1 }))
  unfolding admit
  admit-encrypted c now msg e = simp e refl

  -- With no timestamp and protection on, nothing is accepted.
  undated :
      (g : ReplayGuard) (now : ℕ) (n : Option ℕ)
      → 0 < g.window
      → (accept g now true none n).0 ≡ false
  unfolding accept
  undated g now n on = ground arith

  accept-repeated :
      (g : ReplayGuard) (now now' : ℕ) (t n : Option ℕ)
      → IsConsistent g
      → 0 < g.window
      → 0 < g.max_entries
      → now ≤ now'
      → (accept g now true t n).0 ≡ true
      → (accept (accept g now true t n).1 now' true t n).0 ≡ false
  unfolding accept run
  accept-repeated g now now' none n consistent on room later e =
      let never = undated g now n on in cc
  accept-repeated g now now' (some t) n consistent on room later e =
      no_replay g now t true n [] now' true consistent on
        (ap (λ b. (b, (accept g now true (some t) n).1)) e) later room

  -- With replay protection on, an encrypted datagram that was admitted calls no subscription when
  -- it comes again before any other, at any later time, whatever the callbacks did.
  pub duplicate_not_delivered :
      (c : Client) (now now' : ℕ) (packet : List ℕ) {msg : DecodedMessage}
      → IsConsistent c.replay
      → 0 < c.replay.window
      → 0 < c.replay.max_entries
      → decode w.fast packet c.settings.key ≡ ok msg
      → msg.was_encrypted ≡ true
      → (admit w c now msg).0 ≡ true
      → now ≤ now'
      → (handle_datagram w now' (handle_datagram w now c packet).1 packet).0 ≡ ok []
  duplicate_not_delivered c now now' packet {msg} consistent on room decoded encrypted admitted
        later =
      let first = admit-encrypted c now msg encrypted in
      let checked = accept c.replay now true msg.timestamp msg.nonce in
      let c' = (deliver w (admit w c now msg).1 msg).0 in
      let accepted : checked.0 ≡ true = sym (ap (λ r. r.0) first) ∙ admitted in
      let guarded : HasGuard c.settings checked.1 (admit w c now msg).1 =
        subst (λ r. HasGuard c.settings checked.1 r.1) (sym first) (refl, refl) in
      let (settings, replay) =
        deliver-HasGuard c.settings checked.1 (admit w c now msg).1 msg guarded in
      let again : (admit w c' now' msg).0 ≡ false =
        ap (λ r. r.0) (admit-encrypted c' now' msg encrypted)
        ∙ ap (λ g. (accept g now' true msg.timestamp msg.nonce).0) replay
        ∙ accept-repeated c.replay now now' msg.timestamp msg.nonce consistent on room later
            accepted in
      let decoded' : decode w.fast packet c'.settings.key ≡ ok msg =
        ap (λ s. decode w.fast packet s.key) settings ∙ decoded in
      ap (λ r. (handle_datagram w now' r.1 packet).0)
        (admitted-handle now c packet decoded admitted)
      ∙ rejected-handle now' c' packet decoded' again
