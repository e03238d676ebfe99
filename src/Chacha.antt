-- ===== src/Chacha.antt =====
-- The ChaCha20 half of python/mpubsub/wire.py: `_rotl32`, `_chacha_qr`, `_chacha_block`, `chacha20`.
-- A 32-bit word is a number below 2 ^ 32 and keeps the source's `& 0xFFFFFFFF`. A key of 32 bytes
-- and a nonce of 12 are the caller's duty, as in the source: `struct.unpack` refuses others.
pub mod Keystream
pub mod Round
use Prim.Native.Nat.{bit_and, bit_or, bit_xor}
use esphome_multicast_pubsub.Prelude.{
  ℕ, zero, suc, ◌+◌, ◌-◌, ◌*◌, ◌/◌, ◌^◌, List, [], ◌∷◌, ◌++◌, map, length, get_or, set, take, drop,
}
use esphome_multicast_pubsub.Prelude.Bytes.{to_le, from_le}

abbrev pub word_mask : ℕ
word_mask = 0xFFFFFFFF

unfoldable pub rotl32 : ℕ → ℕ → ℕ
rotl32 x n = bit_and (bit_or (x * 2 ^ n) (x / 2 ^ (32 - n))) word_mask

-- s[a] = (s[a] + s[b]) & 0xFFFFFFFF
unfoldable pub add_to : List ℕ → ℕ → ℕ → List ℕ
add_to s a b = set s a (bit_and (get_or s a 0 + get_or s b 0) word_mask)

-- s[d] = _rotl32(s[d] ^ s[a], n)
unfoldable pub mix_into : List ℕ → ℕ → ℕ → ℕ → List ℕ
mix_into s d a n = set s d (rotl32 (bit_xor (get_or s d 0) (get_or s a 0)) n)

unfoldable pub chacha_qr : List ℕ → ℕ → ℕ → ℕ → ℕ → List ℕ
unfolding add_to mix_into rotl32
chacha_qr s a b c d =
    let s = add_to s a b in
    let s = mix_into s d a 16 in
    let s = add_to s c d in
    let s = mix_into s b c 12 in
    let s = add_to s a b in let s = mix_into s d a 8 in let s = add_to s c d in mix_into s b c 7

-- One turn of the loop: a column round and a diagonal round.
unfoldable pub double_round : List ℕ → List ℕ
unfolding chacha_qr
double_round w =
    let w = chacha_qr w 0 4 8 12 in
    let w = chacha_qr w 1 5 9 13 in
    let w = chacha_qr w 2 6 10 14 in
    let w = chacha_qr w 3 7 11 15 in
    let w = chacha_qr w 0 5 10 15 in
    let w = chacha_qr w 1 6 11 12 in let w = chacha_qr w 2 7 8 13 in chacha_qr w 3 4 9 14

unfoldable pub rounds : ℕ → List ℕ → List ℕ
unfolding double_round
rounds zero w = w
rounds (suc n) w = rounds n (double_round w)

-- struct.unpack("<nI", b)
unfoldable pub unpack_words : ℕ → List ℕ → List ℕ
unpack_words zero b = []
unpack_words (suc n) b = from_le (take 4 b) ∷ unpack_words n (drop 4 b)

-- struct.pack("<nI", *words)
unfoldable pub pack_words : List ℕ → List ℕ
pack_words [] = []
pack_words (w ∷ ws) = to_le 4 w ++ pack_words ws

-- list(range(start, start + count))
unfoldable pub range : ℕ → ℕ → List ℕ
range start zero = []
range start (suc count) = start ∷ range (start + 1) count

unfoldable pub initial_state : List ℕ → ℕ → List ℕ → List ℕ
unfolding unpack_words
initial_state key counter nonce =
    (0x61707865 ∷ 0x3320646E ∷ 0x79622D32 ∷ 0x6B206574 ∷ [])
    ++ (unpack_words 8 key ++ (bit_and counter word_mask ∷ unpack_words 3 nonce))

-- [(w[i] + state[i]) & 0xFFFFFFFF for i in range(16)]
unfoldable pub feed_forward : List ℕ → List ℕ → List ℕ
unfolding range
feed_forward w state = map (λ i. bit_and (get_or w i 0 + get_or state i 0) word_mask) (range 0 16)

unfoldable pub chacha_block : List ℕ → ℕ → List ℕ → List ℕ
unfolding initial_state rounds pack_words feed_forward
chacha_block key counter nonce =
    let state = initial_state key counter nonce in pack_words (feed_forward (rounds 10 state) state)

-- `b ^ ks[j] for j, b in enumerate(chunk)`. The source would raise an `IndexError` on a keystream
-- that is too short, where this drops the rest of the chunk; a block is as long as a chunk can be.
unfoldable pub xor_chunk : List ℕ → List ℕ → List ℕ
xor_chunk [] ks = []
xor_chunk (b ∷ chunk) [] = []
xor_chunk (b ∷ chunk) (k ∷ ks) = bit_xor b k ∷ xor_chunk chunk ks

-- The loop over `range(0, len(data), 64)` with `n` turns left: `data` is what is still to be
-- encrypted, and `counter` is `counter + i // 64`.
unfoldable pub chacha20_loop : List ℕ → List ℕ → ℕ → ℕ → List ℕ → List ℕ
unfolding xor_chunk chacha_block
chacha20_loop key nonce zero counter rest = []
chacha20_loop key nonce (suc n) counter rest =
    xor_chunk (take 64 rest) (chacha_block key counter nonce)
    ++ chacha20_loop key nonce n (counter + 1) (drop 64 rest)

unfoldable pub chacha20 : List ℕ → ℕ → List ℕ → List ℕ → List ℕ
unfolding chacha20_loop
chacha20 key counter nonce plain = chacha20_loop key nonce ((length plain + 63) / 64) counter plain
