-- ===== src/Rules.antt =====
-- What a user may configure: topics, scopes, message schemas and retransmissions, as three parts of
-- the program check them: python/mpubsub/aio.py (`Aio`), custom_components/mpubsub/util.py
-- (`HomeAssistant`) and components/mpubsub/__init__.py (`Component`).
pub mod Aio
pub mod HomeAssistant
pub mod Component
pub mod Agree
use esphome_multicast_pubsub.Prelude.{
  ℕ, Bool, true, false, ◌||◌, List, [], ◌∷◌, ◌==◌, if◌then◌else◌,
}

-- A Python argument that should be a `str`: its code points, or something else.
pub data TextArg : Type 0 where
  str : List ℕ → TextArg
  other : TextArg

-- char in text
unfoldable pub contains_code : ℕ → List ℕ → Bool
contains_code c [] = false
contains_code c (x ∷ text) = x == c || contains_code c text

-- len(encoded) == 0, not encoded
unfoldable pub is_empty {ℓ} : {A : Type ℓ} → List A → Bool
is_empty [] = true
is_empty (x ∷ xs) = false
