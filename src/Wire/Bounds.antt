-- ===== src/Wire/Bounds.antt =====
-- The sizes of what `encode` returns, its errors, and what an encrypted datagram shows.
use mathlib.Core.Option
use esphome_multicast_pubsub.Prelude.{
  ℕ, ◌+◌, ◌≤◌, ◌≡◌, sym, ap, ◌∙◌, Option, none, some, List, ◌++◌, append_assoc, length, take, ok,
  arith, length-append, take-append,
}
use esphome_multicast_pubsub.Aead.{FastCipher, aead_encrypt}
use esphome_multicast_pubsub.Aead.Laws.{length-aead_encrypt}
use esphome_multicast_pubsub.Topic.{Hashes, topic_crc32}
use esphome_multicast_pubsub.Wire.{Env, build_header, encode, max_datagram}
use esphome_multicast_pubsub.Wire.Header.{length-build_header}
use esphome_multicast_pubsub.Wire.Encode.{inner, encode-plain_iff, encode-encrypted_iff}
use esphome_multicast_pubsub.Wire.RoundTrip.Slices.{length-parts}

-- What the framing adds to a payload.
abbrev pub overhead : Option (List ℕ) → ℕ
overhead none = 12
overhead (some key) = 48

module _ (fast : Option FastCipher) (h : Hashes) (env : Env) where
  -- A datagram is its payload and 12 bytes, or 48 bytes with a key, and never exceeds the 1232
  -- bytes that an IPv6 path carries unfragmented.
  pub length-encode :
      (topic payload : List ℕ) (encoding : ℕ) (key : Option (List ℕ)) (timestamp : Option ℕ)
      (given : Option (List ℕ)) {d : List ℕ}
      → encode fast h env topic payload encoding key timestamp given ≡ ok d
      → (length d ≡ overhead key + length payload) × (length d ≤ max_datagram)
  length-encode topic payload encoding none timestamp given {d} e =
      let (fits, _, out) =
        (encode-plain_iff fast h env topic payload encoding timestamp given d).0 e in
      let header = build_header (topic_crc32 h topic) encoding (length payload) 0 in
      let size : length d ≡ 12 + length payload = omega (
        arith,
        ap length out,
        length-append header payload,
        length-build_header (topic_crc32 h topic) encoding (length payload) 0,
      ) in
      (size, omega arith)
  length-encode topic payload encoding (some key) timestamp given {d} e =
      let (_, _, n, fits, out) =
        (encode-encrypted_iff fast h env topic payload encoding key timestamp given d).0 e in
      let nonce = Option.get_or given env.urandom in
      let header = build_header 0 encoding (length payload) 1 in
      let plaintext = inner fast (topic_crc32 h topic) (Option.get_or timestamp env.now) payload in
      let (ct, tag) = aead_encrypt fast key nonce plaintext header in
      let (lc, lt) = length-aead_encrypt fast key nonce plaintext header in
      let parts =
        length-parts header nonce ct tag (length-build_header 0 encoding (length payload) 1) n lt in
      let size : length d ≡ 48 + length payload = omega (arith, ap length out, parts, lc) in
      (size, omega arith)

  clear_part :
      (topic payload : List ℕ) (encoding : ℕ) (key : List ℕ) (timestamp : Option ℕ) (nonce : List ℕ)
      {d : List ℕ}
      → encode fast h env topic payload encoding (some key) timestamp (some nonce) ≡ ok d
      → take 24 d ≡ build_header 0 encoding (length payload) 1 ++ nonce
  clear_part topic payload encoding key timestamp nonce e =
      let (_, _, n, _, out) =
        (encode-encrypted_iff fast h env topic payload encoding key timestamp (some nonce) _).0 e in
      let header = build_header 0 encoding (length payload) 1 in
      let plaintext = inner fast (topic_crc32 h topic) (Option.get_or timestamp env.now) payload in
      let (ct, tag) = aead_encrypt fast key nonce plaintext header in
      let size : length (header ++ nonce) ≡ 24 =
        omega (
          arith,
          length-append header nonce,
          length-build_header 0 encoding (length payload) 1,
          n,
        ) in
      ap (take 24) (out ∙ sym (append_assoc header nonce (ct ++ tag)))
      ∙ take-append 24 (header ++ nonce) (ct ++ tag) size

  -- Two encrypted datagrams with the same nonce, encoding and payload length start with the same 24
  -- bytes, whatever their topics, payloads, timestamps and keys: the clear part does not show the
  -- topic.
  pub encode_hides_topic :
      (topic payload topic' payload' : List ℕ) (encoding : ℕ) (key key' : List ℕ)
      (timestamp timestamp' : Option ℕ) (nonce : List ℕ) {d d' : List ℕ}
      → length payload ≡ length payload'
      → encode fast h env topic payload encoding (some key) timestamp (some nonce) ≡ ok d
      → encode fast h env topic' payload' encoding (some key') timestamp' (some nonce) ≡ ok d'
      → take 24 d ≡ take 24 d'
  encode_hides_topic topic payload topic' payload' encoding key key' timestamp timestamp' nonce same
        e e' =
      clear_part topic payload encoding key timestamp nonce e
      ∙ ap (λ n. build_header 0 encoding n 1 ++ nonce) same
      ∙ sym (clear_part topic' payload' encoding key' timestamp' nonce e')
