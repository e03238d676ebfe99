-- ===== src/Rules/Component.antt =====
-- The YAML validators of components/mpubsub/__init__.py, after the coercions of `cv` (`cv.string`,
-- `cv.int_`, `cv.positive_int`). `str.isalpha` and `str.isalnum` of one character are an argument.
use esphome_multicast_pubsub.Prelude.{
  ℕ, ◌-◌, Bool, not, ◌||◌, ◌&&◌, List, [], ◌∷◌, length, Result, ok, raise, invalid, ◌>>=◌, ◌>>◌,
  raise_if, ltb, leb, ◌==◌, if◌then◌else◌,
}
use esphome_multicast_pubsub.Prelude.Int.{ℤ, pos, minus_one, eq_ℤ, ltb_ℤ}
use esphome_multicast_pubsub.Topic.{encode_utf8}
use esphome_multicast_pubsub.Rules.{contains_code, is_empty}

abbrev pub max_payload : ℕ
max_payload = 1232 - 12

unfoldable pub static_payload_validator : List ℕ → Result (List ℕ)
unfolding encode_utf8
static_payload_validator value = do
  encoded ← encode_utf8 value
  raise_if (ltb max_payload (length encoded)) invalid
  ok value

unfoldable pub topic_validator : List ℕ → Result (List ℕ)
unfolding contains_code is_empty encode_utf8
topic_validator value = do
  raise_if (contains_code 0 value) invalid
  encoded ← encode_utf8 value
  raise_if (is_empty encoded) invalid
  raise_if (ltb 200 (length encoded)) invalid
  ok value

unfoldable pub retransmit_count_validator : ℤ → Result ℤ
retransmit_count_validator value =
    if eq_ℤ value minus_one
    then ok value
    else if ltb_ℤ value (pos 1) || ltb_ℤ (pos 255) value
    then raise invalid
    else ok value

unfoldable pub field_tag_validator : ℕ → Result ℕ
field_tag_validator value =
    if not (leb 1 value && leb value 536_870_911)
    then raise invalid
    else if leb 19000 value && leb value 19999
    then raise invalid
    else ok value

-- `str.isalpha` and `str.isalnum`.
pub record Letters : Type 0 where
  pub is_alpha : ℕ → Bool
  pub is_alnum : ℕ → Bool

module _ (l : Letters) where
  -- for c in value: if not (c.isalnum() or c in allowed): raise …
  unfoldable pub check_chars : List ℕ → List ℕ → Result (Unit {0})
  unfolding contains_code
  check_chars allowed [] = ok tt
  check_chars allowed (c ∷ value) = do
    raise_if (not (l.is_alnum c || contains_code c allowed)) invalid
    check_chars allowed value

  unfoldable pub message_id_validator : List ℕ → Result (List ℕ)
  unfolding check_chars
  message_id_validator [] = raise invalid
  message_id_validator (c ∷ value) = do
    raise_if (not (l.is_alpha c || c == b'_')) invalid
    check_chars (b'_' ∷ b'-' ∷ []) (c ∷ value)
    ok (c ∷ value)

  unfoldable pub field_name_validator : List ℕ → Result (List ℕ)
  unfolding check_chars
  field_name_validator [] = raise invalid
  field_name_validator (c ∷ value) = do
    raise_if (not (l.is_alpha c || c == b'_')) invalid
    check_chars (b'_' ∷ []) (c ∷ value)
    ok (c ∷ value)
