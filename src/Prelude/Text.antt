-- ===== src/Prelude/Text.antt =====
-- Texts as lists of code points: literals, lines and numerals.
use Prim.Native.Char.{code}
use Prim.Native.Nat.{ℕ, zero, suc, ◌+◌, ◌/◌, ◌%◌}
use Prim.Native.String.{String}
use mathlib.Core.Bool.{true, false}
use mathlib.Core.List.{List, [], ◌∷◌, ◌++◌}
use esphome_multicast_pubsub.Prelude.Tests.{ltb, if◌then◌else◌}

-- The code points of a literal. `String` has its own `[]` and `∷`.
unfoldable pub codes : String → List ℕ
codes String.[] = []
codes (String.◌∷◌ c s) = code c ∷ codes s

-- separator.join(texts)
unfoldable pub join_after : List ℕ → List (List ℕ) → List ℕ
join_after separator [] = []
join_after separator (t ∷ ts) = separator ++ t ++ join_after separator ts

unfoldable pub join_text : List ℕ → List (List ℕ) → List ℕ
unfolding join_after
join_text separator [] = []
join_text separator (t ∷ ts) = t ++ join_after separator ts

-- "\n".join(texts)
unfoldable pub join_lines : List (List ℕ) → List ℕ
unfolding join_text
join_lines = join_text (b'\n' ∷ [])

-- Lines that all end in a newline.
unfoldable pub lines : List (List ℕ) → List ℕ
lines [] = []
lines (t ∷ ts) = t ++ b'\n' ∷ lines ts

-- text.replace(c, replacement), for one character
unfoldable pub replace_code : ℕ → List ℕ → List ℕ → List ℕ
replace_code c replacement [] = []
replace_code c replacement (x ∷ text) =
    let rest = replace_code c replacement text in
    if ltb x c then x ∷ rest else if ltb c x then x ∷ rest else replacement ++ rest

-- The digits of a number, with fuel for each.
unfoldable pub digits : ℕ → ℕ → List ℕ
digits zero n = []
digits (suc fuel) n = elim (ltb n 10) [
  | true ↦ (n + b'0') ∷ []
  | false ↦ digits fuel (n / 10) ++ (n % 10 + b'0') ∷ []
]

-- str(n)
unfoldable pub decimal : ℕ → List ℕ
unfolding digits
decimal n = digits (suc n) n

abbrev hex_digit : ℕ → ℕ
hex_digit d = if ltb d 10 then d + b'0' else d + 87

-- f"{n:04x}", for a number below 2 ^ 16
unfoldable pub hex4 : ℕ → List ℕ
hex4 n =
    hex_digit (n / 4096 % 16)
    ∷ hex_digit (n / 256 % 16)
    ∷ hex_digit (n / 16 % 16)
    ∷ hex_digit (n % 16)
    ∷ []
