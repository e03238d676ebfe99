-- ===== src/Chacha/Keystream.antt =====
-- `chacha20` byte by byte: the keystream that it adds, and what follows for lengths, for bytes and
-- for decryption.
use Prim.Native.Nat.{bit_xor}
use native.Mathlib.Decide.{dec_lt}
use esphome_multicast_pubsub.Prelude.{
  ℕ, zero, suc, ◌+◌, ◌*◌, ◌-◌, ◌/◌, ◌%◌, ◌≤◌, ◌<◌, ◌≡◌, refl, ap, ap₂, ◌∙◌, List, [], ◌∷◌, ◌++◌,
  arith, length, get_or, take, drop, All-append, length-append, length-take, length-drop,
  get_or-append_left, get_or-append_right, get_or-take, get_or-drop, get_or_ext, All-get_or,
  All-get_or_of_each,
}
use esphome_multicast_pubsub.Prelude.Bytes.{to_le, IsBytes, IsByte, to_le-IsBytes}
use esphome_multicast_pubsub.Bits.{xor_cancel, bit_xor-lt}
use esphome_multicast_pubsub.Chacha.{
  initial_state, rounds, feed_forward, pack_words, chacha_block, xor_chunk, chacha20_loop, chacha20,
}

length-pack_words : (ws : List ℕ) → length (pack_words ws) ≡ 4 * length ws
unfolding pack_words
length-pack_words [] = refl
length-pack_words (w ∷ ws) = omega (arith, length-pack_words ws)

pack_words-IsBytes : (ws : List ℕ) → IsBytes (pack_words ws)
unfolding pack_words
pack_words-IsBytes [] = tt
pack_words-IsBytes (w ∷ ws) =
    All-append IsByte (to_le 4 w) (pack_words ws) (to_le-IsBytes 4 w) (pack_words-IsBytes ws)

length-xor_chunk :
    (chunk ks : List ℕ) → length chunk ≤ length ks → length (xor_chunk chunk ks) ≡ length chunk
unfolding xor_chunk
length-xor_chunk [] ks h = refl
length-xor_chunk (b ∷ chunk) [] h = absurd (omega arith)
length-xor_chunk (b ∷ chunk) (k ∷ ks) h = ap suc (length-xor_chunk chunk ks (omega arith))

get_or-xor_chunk :
    (chunk ks : List ℕ) (i : ℕ)
    → length chunk ≤ length ks
    → i < length chunk
    → get_or (xor_chunk chunk ks) i 0 ≡ bit_xor (get_or chunk i 0) (get_or ks i 0)
unfolding xor_chunk
get_or-xor_chunk [] ks i h p = absurd (omega arith)
get_or-xor_chunk (b ∷ chunk) [] i h p = absurd (omega arith)
get_or-xor_chunk (b ∷ chunk) (k ∷ ks) zero h p = refl
get_or-xor_chunk (b ∷ chunk) (k ∷ ks) (suc i) h p =
    get_or-xor_chunk chunk ks i (omega arith) (omega arith)

module _ (key nonce : List ℕ) where
  -- A block is 64 bytes, whatever the key, the counter and the nonce.
  pub length-chacha_block : (counter : ℕ) → length (chacha_block key counter nonce) ≡ 64
  unfolding chacha_block
  length-chacha_block counter = refl

  pub chacha_block-IsBytes : (counter : ℕ) → IsBytes (chacha_block key counter nonce)
  unfolding chacha_block
  chacha_block-IsBytes counter =
      let state = initial_state key counter nonce in
      pack_words-IsBytes (feed_forward (rounds 10 state) state)

  -- Byte `i` of the keystream that starts at block `counter`.
  abbrev pub keystream_byte : ℕ → ℕ → ℕ
  keystream_byte counter i = get_or (chacha_block key (counter + i / 64) nonce) (i % 64) 0

  keystream_byte-lt : (counter i : ℕ) → keystream_byte counter i < 256
  keystream_byte-lt counter i =
      All-get_or 0 IsByte (chacha_block key (counter + i / 64) nonce) (i % 64)
        (omega (arith, length-chacha_block (counter + i / 64)))
        (chacha_block-IsBytes (counter + i / 64))

  module _ (counter : ℕ) (rest : List ℕ) where
    abbrev head_chunk : List ℕ
    head_chunk = xor_chunk (take 64 rest) (chacha_block key counter nonce)

    chunk_fits : length (take 64 rest) ≤ length (chacha_block key counter nonce)
    chunk_fits = omega (arith, length-chacha_block counter, length-take 64 rest)

    length-head_chunk : length head_chunk ≡ length (take 64 rest)
    length-head_chunk = length-xor_chunk (take 64 rest) (chacha_block key counter nonce) chunk_fits

    head_byte :
        (i : ℕ)
        → i < length (take 64 rest)
        → get_or head_chunk i 0 ≡ bit_xor (get_or rest i 0) (keystream_byte counter i)
    head_byte i h =
        let same_block : counter ≡ counter + i / 64 = omega (arith, length-take 64 rest) in
        let same_offset : i ≡ i % 64 = omega (arith, length-take 64 rest) in
        get_or-xor_chunk (take 64 rest) (chacha_block key counter nonce) i chunk_fits h
        ∙ ap₂ bit_xor (get_or-take 0 64 rest i (omega (arith, length-take 64 rest)))
            (ap₂ (λ c t. get_or (chacha_block key c nonce) t 0) same_block same_offset)

  length-chacha20_loop :
      (n counter : ℕ) (rest : List ℕ)
      → length rest ≤ 64 * n
      → length (chacha20_loop key nonce n counter rest) ≡ length rest
  unfolding chacha20_loop
  length-chacha20_loop zero counter rest h = omega arith
  length-chacha20_loop (suc n) counter rest h =
      let tail = drop 64 rest in
      omega (
        arith,
        length-append (head_chunk counter rest) (chacha20_loop key nonce n (counter + 1) tail),
        length-head_chunk counter rest,
        length-take 64 rest,
        length-drop 64 rest,
        length-chacha20_loop n (counter + 1) tail (omega (arith, length-drop 64 rest)),
      )

  -- The ciphertext is as long as the plaintext: ChaCha20 pads nothing.
  pub length-chacha20 :
      (counter : ℕ) (plain : List ℕ) → length (chacha20 key counter nonce plain) ≡ length plain
  unfolding chacha20
  length-chacha20 counter plain =
      length-chacha20_loop ((length plain + 63) / 64) counter plain (omega arith)

  loop_byte :
      (n counter : ℕ) (rest : List ℕ) (i : ℕ)
      → length rest ≤ 64 * n
      → i < length rest
      → get_or (chacha20_loop key nonce n counter rest) i 0
        ≡ bit_xor (get_or rest i 0) (keystream_byte counter i)
  unfolding chacha20_loop
  loop_byte zero counter rest i h p = absurd (omega arith)
  loop_byte (suc n) counter rest i h p = elim (dec_lt i 64) [
    | yes near ↦
        let inside : i < length (take 64 rest) = omega (arith, length-take 64 rest) in
        get_or-append_left 0 (head_chunk counter rest)
          (chacha20_loop key nonce n (counter + 1) (drop 64 rest)) i
          (omega (arith, length-head_chunk counter rest))
        ∙ head_byte counter rest i inside
    | no far ↦
        let j = i - 64 in
        let later = chacha20_loop key nonce n (counter + 1) (drop 64 rest) in
        let e : i ≡ length (head_chunk counter rest) + j =
          omega (arith, length-head_chunk counter rest, length-take 64 rest) in
        let there : 64 + j ≡ i = omega arith in
        let block_number : counter + 1 + j / 64 ≡ counter + i / 64 = omega arith in
        let offset : j % 64 ≡ i % 64 = omega arith in
        ap (λ t. get_or (head_chunk counter rest ++ later) t 0) e
        ∙ get_or-append_right 0 (head_chunk counter rest) later j
        ∙ loop_byte n (counter + 1) (drop 64 rest) j (omega (arith, length-drop 64 rest))
            (omega (arith, length-drop 64 rest))
        ∙ ap₂ bit_xor (get_or-drop 0 64 rest j ∙ ap (λ t. get_or rest t 0) there)
            (ap₂ (λ c t. get_or (chacha_block key c nonce) t 0) block_number offset)
  ]

  -- Byte `i` of the output is byte `i` of the input, `^` byte `i % 64` of block `counter + i / 64`.
  pub chacha20-keystream :
      (counter : ℕ) (plain : List ℕ) (i : ℕ)
      → i < length plain
      → get_or (chacha20 key counter nonce plain) i 0
        ≡ bit_xor (get_or plain i 0) (get_or (chacha_block key (counter + i / 64) nonce) (i % 64) 0)
  unfolding chacha20
  chacha20-keystream counter plain i h =
      loop_byte ((length plain + 63) / 64) counter plain i (omega arith) h

  pub chacha20-IsBytes :
      (counter : ℕ) (plain : List ℕ) → IsBytes plain → IsBytes (chacha20 key counter nonce plain)
  chacha20-IsBytes counter plain b =
      All-get_or_of_each 0 IsByte (chacha20 key counter nonce plain) λ i h.
        let p : i < length plain = omega (arith, length-chacha20 counter plain) in
        rw (chacha20-keystream counter plain i p) (
          bit_xor-lt 8 (get_or plain i 0) (keystream_byte counter i)
            (All-get_or 0 IsByte plain i p b) (keystream_byte-lt counter i))

  -- Encrypting twice with one key, counter and nonce gives the plaintext back.
  pub chacha20-chacha20 :
      (counter : ℕ) (plain : List ℕ)
      → chacha20 key counter nonce (chacha20 key counter nonce plain) ≡ plain
  chacha20-chacha20 counter plain =
      let cipher = chacha20 key counter nonce plain in
      get_or_ext 0 (chacha20 key counter nonce cipher) plain
        (length-chacha20 counter cipher ∙ length-chacha20 counter plain)
        λ i h.
          let p : i < length cipher = omega (arith, length-chacha20 counter cipher) in
          let q : i < length plain = omega (arith, length-chacha20 counter plain) in
          chacha20-keystream counter cipher i p
          ∙ ap (λ b. bit_xor b (keystream_byte counter i)) (chacha20-keystream counter plain i q)
          ∙ xor_cancel (get_or plain i 0) (keystream_byte counter i)
