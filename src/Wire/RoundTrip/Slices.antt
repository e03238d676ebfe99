-- ===== src/Wire/RoundTrip/Slices.antt =====
-- Where the parts of an encrypted datagram lie.
use esphome_multicast_pubsub.Prelude.{
  ℕ, ◌+◌, ◌-◌, ◌≡◌, sym, ap, ◌∙◌, List, ◌++◌, append_assoc, length, take, drop, arith,
  length-append, take-append, drop-append,
}
use esphome_multicast_pubsub.Wire.{slice}

module _ (header nonce ct tag : List ℕ) (h : length header ≡ 12) (n : length nonce ≡ 12)
    (t : length tag ≡ 16) where
  abbrev whole : List ℕ
  whole = header ++ (nonce ++ (ct ++ tag))

  pub length-parts : length whole ≡ 40 + length ct
  length-parts = omega (
    arith,
    length-append header (nonce ++ (ct ++ tag)),
    length-append nonce (ct ++ tag),
    length-append ct tag,
  )

  pub aad_part : take 12 whole ≡ header
  aad_part = take-append 12 header (nonce ++ (ct ++ tag)) h

  pub nonce_part : slice whole 12 24 ≡ nonce
  nonce_part =
      ap (take 12) (drop-append 12 header (nonce ++ (ct ++ tag)) h)
      ∙ take-append 12 nonce (ct ++ tag) n

  after_nonce : drop 24 whole ≡ ct ++ tag
  after_nonce =
      ap (drop 24) (sym (append_assoc header nonce (ct ++ tag)))
      ∙ drop-append 24 (header ++ nonce) (ct ++ tag) (omega (arith, length-append header nonce))

  pub ct_part : slice whole 24 (length whole - 16) ≡ ct
  ct_part =
      ap (take (length whole - 16 - 24)) after_nonce
      ∙ take-append (length whole - 16 - 24) ct tag (omega (arith, length-parts))

  pub tag_part : drop (length whole - 16) whole ≡ tag
  tag_part =
      ap (drop (length whole - 16))
        (sym (append_assoc header nonce (ct ++ tag)) ∙ sym (append_assoc (header ++ nonce) ct tag))
      ∙ drop-append (length whole - 16) ((header ++ nonce) ++ ct) tag (
          omega
            (arith, length-parts, length-append header nonce, length-append (header ++ nonce) ct))
