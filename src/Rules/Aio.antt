-- ===== src/Rules/Aio.antt =====
-- `validate_topic` and `resolve_scope` of python/mpubsub/aio.py.
use esphome_multicast_pubsub.Prelude.{
  ℕ, not, List, [], ◌∷◌, length, Result, ok, raise, topic_error, value_error, ◌>>=◌, ◌>>◌, raise_if,
  ltb, if◌then◌else◌,
}
use esphome_multicast_pubsub.Topic.{
  encode_utf8, is_valid_scope, scope_link_local, scope_site_local, scope_org_local,
}
use esphome_multicast_pubsub.Wire.{bytes_eq}
use esphome_multicast_pubsub.Rules.{TextArg, str, other, contains_code, is_empty}

abbrev pub max_topic_bytes : ℕ
max_topic_bytes = 200

abbrev pub wildcard_chars : List ℕ
wildcard_chars = b'+' ∷ b'#' ∷ []

-- for char in _WILDCARD_CHARS: if char in topic: raise …
unfoldable pub refuse_wildcards : List ℕ → List ℕ → Result (Unit {0})
unfolding contains_code
refuse_wildcards [] topic = ok tt
refuse_wildcards (c ∷ chars) topic = do
  raise_if (contains_code c topic) topic_error
  refuse_wildcards chars topic

unfoldable pub validate_topic : TextArg → Result (List ℕ)
unfolding refuse_wildcards is_empty encode_utf8
validate_topic other = raise topic_error
validate_topic (str topic) = do
  refuse_wildcards wildcard_chars topic
  encoded ← encode_utf8 topic
  raise_if (is_empty encoded) topic_error
  raise_if (contains_code 0 encoded) topic_error
  raise_if (ltb max_topic_bytes (length encoded)) topic_error
  ok topic

-- A scope by its name or its nibble.
pub data ScopeArg : Type 0 where
  name : List ℕ → ScopeArg
  nibble : ℕ → ScopeArg

abbrev pub link_local : List ℕ
link_local = b'l' ∷ b'i' ∷ b'n' ∷ b'k' ∷ b'-' ∷ b'l' ∷ b'o' ∷ b'c' ∷ b'a' ∷ b'l' ∷ []

abbrev pub site_local : List ℕ
site_local = b's' ∷ b'i' ∷ b't' ∷ b'e' ∷ b'-' ∷ b'l' ∷ b'o' ∷ b'c' ∷ b'a' ∷ b'l' ∷ []

abbrev pub organization_local : List ℕ
organization_local =
    b'o' ∷ b'r' ∷ b'g' ∷ b'a' ∷ b'n' ∷ b'i' ∷ b'z' ∷ b'a' ∷ b't' ∷ b'i' ∷ b'o' ∷ b'n' ∷ b'-' ∷ b'l'
    ∷ b'o' ∷ b'c' ∷ b'a' ∷ b'l' ∷ []

unfoldable pub resolve_scope : ScopeArg → Result ℕ
unfolding is_valid_scope bytes_eq
resolve_scope (nibble scope) = if not (is_valid_scope scope) then raise value_error else ok scope
resolve_scope (name scope) =
    if bytes_eq scope link_local
    then ok scope_link_local
    else if bytes_eq scope site_local
    then ok scope_site_local
    else if bytes_eq scope organization_local
    then ok scope_org_local
    else raise value_error
