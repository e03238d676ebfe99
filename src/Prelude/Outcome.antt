-- ===== src/Prelude/Outcome.antt =====
-- Python's exceptions as values. One constructor for each exception that the modelled code raises.
use mathlib.Core.Path.{◌≡◌, refl}
use mathlib.Core.Bool.{Bool, true, false}

-- `WireError` and `UnicodeEncodeError` are subclasses of `ValueError`; a handler for `WireError` does
-- not catch the others.
pub data Error : Type 0 where
  wire_error : Error
  value_error : Error
  topic_error : Error
  mpubsub_error : Error
  os_error : Error
  runtime_error : Error
  lookup_error : Error
  assertion_error : Error
  home_assistant_error : Error
  recursion_error : Error
  invalid : Error
  index_error : Error
  struct_error : Error
  unicode_encode_error : Error

pub data Result {ℓ} (A : Type ℓ) : Type ℓ where
  ok : A → Result A
  raise : Error → Result A

-- What follows runs on the value, or is passed over for the exception.
module _ {ℓ κ} {A : Type ℓ} {B : Type κ} where
  infixl 5 ◌>>=◌
  abbrev pub ◌>>=◌ : Result A → (A → Result B) → Result B
  raise why >>= next = raise why
  ok value >>= next = next value

  -- A returned value comes from a returned value.
  pub >>=-eq-ok :
      (first : Result A) (next : A → Result B) {result : B}
      → (first >>= next) ≡ ok result
      → (value : A) × (first ≡ ok value) × (next value ≡ ok result)
  >>=-eq-ok (raise why) next returned = cc
  >>=-eq-ok (ok value) next returned = (value, refl, returned)

infixl 5 ◌>>◌
abbrev pub ◌>>◌ {κ} : {B : Type κ} → Result (Unit {0}) → Result B → Result B
check >> next = check >>= λ _. next

-- `if test: raise why`
abbrev pub raise_if : Bool → Error → Result (Unit {0})
raise_if test why = elim test [ true ↦ raise why | false ↦ ok tt ]
