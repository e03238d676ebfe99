-- ===== src/Tests/Data.antt =====
-- Concrete values for what the repository does not implement, and for the inputs of the runs.
use Prim.Native.Nat.{bit_xor}
use esphome_multicast_pubsub.Prelude.{
  ℕ, zero, suc, ◌/◌, ◌%◌, ◌≡◌, refl, List, [], ◌∷◌, replicate, All-replicate, arith, ◌==◌,
  if◌then◌else◌,
}
use esphome_multicast_pubsub.Prelude.Bytes.{IsByte}
use esphome_multicast_pubsub.Topic.{Hashes}
use esphome_multicast_pubsub.Wire.{Env}

-- CRC-32/IEEE, bit by bit.
abbrev shift_bits : ℕ → ℕ → ℕ
shift_bits zero c = c
shift_bits (suc n) c = shift_bits n (if c % 2 == 1 then bit_xor (c / 2) 0xEDB88320 else c / 2)

abbrev crc_loop : ℕ → List ℕ → ℕ
crc_loop c [] = c
crc_loop c (b ∷ bs) = crc_loop (shift_bits 8 (bit_xor c b)) bs

abbrev pub crc32 : List ℕ → ℕ
crc32 bs = bit_xor (crc_loop 0xFFFFFFFF bs) 0xFFFFFFFF

-- The check value of CRC-32: "123456789".
crc32_check : crc32 (0x31 ∷ 0x32 ∷ 0x33 ∷ 0x34 ∷ 0x35 ∷ 0x36 ∷ 0x37 ∷ 0x38 ∷ 0x39 ∷ []) ≡ 0xCBF43926
crc32_check = refl

-- A stand-in with the two laws that are assumed of SHA-256.
abbrev pub hashes : Hashes
hashes = record {
  sha256 = λ b. replicate 32 (crc32 b % 256);
  crc32 = crc32;
  length-sha256 = λ b. refl;
  sha256-IsBytes = λ b. All-replicate IsByte 32 (crc32 b % 256) (omega arith);
}

abbrev pub key : List ℕ
key = replicate 32 7

abbrev pub nonce : List ℕ
nonce = 1 ∷ 2 ∷ 3 ∷ 4 ∷ replicate 8 9

abbrev pub env : Env
env = record { now = 1_700_000_000; urandom = nonce }

-- "a/b", "on"
abbrev pub topic : List ℕ
topic = b'a' ∷ b'/' ∷ b'b' ∷ []

abbrev pub payload : List ℕ
payload = b'o' ∷ b'n' ∷ []
