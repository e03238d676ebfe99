-- ===== src/Client/Publish/Listed.antt =====
-- What the tables list, under each change of them.
use esphome_multicast_pubsub.Prelude.{
  ℕ, ◌≡◌, refl, sym, ap, ◌∙◌, false, none, some, List, ◌∷◌, All, arith, ◌==◌, Bool-cases, inl, inr,
}
use esphome_multicast_pubsub.Wire.{bytes_eq}
use esphome_multicast_pubsub.Client.{Timer, Action, fire, tick, lookup, insert, remove, discard}
use esphome_multicast_pubsub.Client.Publish.Chains.{
  is_tick, IsListed, bytes_eq-eq, lookup-remove, lookup-insert_other, is_finite-discard,
}

-- None of the timers continues the chain of a topic.
abbrev pub HasNoTick : List ℕ → List Timer → Type 0
HasNoTick topic timers = All (λ t. is_tick topic t.action ≡ false) timers

-- The handle under which a topic is listed is the only one its chain has.
pub other_tick :
    (d : List (List ℕ × ℕ)) (f : List ℕ) (topic : List ℕ) (h g : ℕ) (a : Action)
    → lookup topic d ≡ some h
    → (g == h) ≡ false
    → IsListed d f g a
    → is_tick topic a ≡ false
other_tick d f topic h g (fire _ _) e ne l = refl
other_tick d f topic h g (tick u group datagram) e ne l = elim (Bool-cases (bytes_eq topic u)) [
  | inl same ↦
      let both : some h ≡ some g = sym e ∙ ap (λ k. lookup k d) (bytes_eq-eq topic u same) ∙ l in
      absurd (ground (arith, both))
  | inr other ↦ other
]

pub unlisted :
    (d : List (List ℕ × ℕ)) (f : List ℕ) (topic : List ℕ) (g : ℕ) (a : Action)
    → lookup topic d ≡ none
    → IsListed d f g a
    → is_tick topic a ≡ false
unlisted d f topic g (fire _ _) e l = refl
unlisted d f topic g (tick u group datagram) e l = elim (Bool-cases (bytes_eq topic u)) [
  | inl same ↦
      let both : none ≡ some g = sym e ∙ ap (λ k. lookup k d) (bytes_eq-eq topic u same) ∙ l in
      absurd (ground (arith, both))
  | inr other ↦ other
]

pub IsListed-remove :
    (d : List (List ℕ × ℕ)) (f : List ℕ) (topic : List ℕ) (g : ℕ) (a : Action)
    → is_tick topic a ≡ false
    → IsListed d f g a
    → IsListed (remove topic d) f g a
IsListed-remove d f topic g (fire _ _) ne l = l
IsListed-remove d f topic g (tick u _ _) ne l = lookup-remove topic u d ne ∙ l

pub IsListed-insert :
    (d : List (List ℕ × ℕ)) (f : List ℕ) (topic : List ℕ) (v g : ℕ) (a : Action)
    → is_tick topic a ≡ false
    → IsListed d f g a
    → IsListed (insert topic v d) f g a
IsListed-insert d f topic v g (fire _ _) ne l = l
IsListed-insert d f topic v g (tick u _ _) ne l = lookup-insert_other topic u v d ne ∙ l

pub IsListed-more :
    (d : List (List ℕ × ℕ)) (f : List ℕ) (h g : ℕ) (a : Action)
    → IsListed d f g a
    → IsListed d (h ∷ f) g a
IsListed-more d f h g (fire _ _) l = ground (arith, l)
IsListed-more d f h g (tick _ _ _) l = l

pub IsListed-discard :
    (d : List (List ℕ × ℕ)) (f : List ℕ) (h g : ℕ) (a : Action)
    → (g == h) ≡ false
    → IsListed d f g a
    → IsListed d (discard h f) g a
IsListed-discard d f h g (fire _ _) ne l = is_finite-discard h g f ne ∙ l
IsListed-discard d f h g (tick _ _ _) ne l = l
