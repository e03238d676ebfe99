-- ===== src/Lib.antt =====
-- mpubsub: publish and subscribe over IPv6 multicast.
--
-- The program. A topic is a string. Its SHA-256 gives a multicast group, its CRC32 a number that the
-- datagrams carry. A publisher frames a payload into one datagram of at most 1232 bytes, in the clear
-- or sealed with ChaCha20-Poly1305 under a shared key, sends it to the group and repeats the same
-- bytes. A subscriber joins the group, decodes what arrives, drops what it has seen before, and calls
-- back whoever subscribed to a topic of that CRC. The same protocol is implemented for ESPHome
-- (components/mpubsub, C++ with a Python configuration part), for Home Assistant
-- (custom_components/mpubsub), as a Python package (python/mpubsub) and as an MQTT bridge
-- (bridges/mqtt-go). This library models the Python code.
--
-- The parts, from the bottom:
--
-- - Prelude: shared names, Boolean tests, lists over native numbers, bytes, integers, texts; `Outcome`
--   has Python's exceptions as values.
-- - Bits: lemmas on masks, rotations and exclusive or of words.
-- - Chacha, Poly, Aead: the pure-Python ChaCha20-Poly1305 of python/mpubsub/wire.py (`_rotl32`,
--   `_chacha_qr`, `_chacha_block`, `chacha20`, `_poly1305`, `_ct_eq`, `_aead_encrypt_py`,
--   `_aead_decrypt_py`, `aead_encrypt`, `aead_decrypt`).
-- - Topic: `topic_to_group`, `topic_crc32`, `derive_key` and UTF-8. `encode_utf8` raises for a lone
--   surrogate, as the checks of a topic do; the other three are of texts that can be encoded, as a
--   checked topic can.
-- - Wire: `encode`, `decode` and the header. custom_components/mpubsub/reference.py and
--   tests/unit/reference.py are byte-identical copies of wire.py, so they are modelled with it.
-- - Replay: `ReplayGuard`.
-- - Rules: the checks of what a user may configure: `validate_topic` and `resolve_scope` of
--   python/mpubsub/aio.py (Aio), custom_components/mpubsub/util.py (HomeAssistant) and the field
--   validators of components/mpubsub/__init__.py (Component).
-- - Schema: components/mpubsub/proto_emitter.py. Schema.antt has `Field`, `Message` and `validate`;
--   Canonical the canonical form and `schema_id`; Types has TYPE_INFO; Members, Decode and Setters have
--   the emitters, Struct has `emit_struct` and `pascal_case`, and Struct/Text its template.
-- - Esphome: components/mpubsub/__init__.py across the parts of a configuration. Messages has the
--   validators of the message schemas, Final `_final_validate`, Codegen `to_code`, Action the action
--   `mpubsub.publish`.
-- - Client: `MpubsubClient` of python/mpubsub/aio.py. Client.antt has its state and `__init__`;
--   Publish has `publish`, the retransmission timers, `start` and `stop`; Subscribe has `subscribe`,
--   `_join` and `_unsubscribe`; Receive has `_handle_datagram` and `_dispatch`; Run has the steps of
--   a client in any order and the states that they reach.
-- - HomeAssistant: custom_components/mpubsub. Transport is client.py, with children for subscribing and
--   receiving, on the same state as Client, so that Agree can compare the two and Refines
--   their runs; Options is config_flow.py and `_config_from_entry`; Services is the rest of
--   __init__.py; BinarySensor is binary_sensor.py, with its timers and the states that it reaches.
-- - Tests: runs at concrete inputs.
--
-- State. A client is a record that every operation takes and returns. Objects whose identity matters
-- are numbered: a `_TopicSub` is an index of `objects`, so that a callback that unsubscribes during a
-- dispatch is seen through the same object. The event loop is a list of pending timers and a clock in
-- milliseconds; `run_timer` is what it does with one that is due. The socket is the list of joined
-- groups and of datagrams sent. An exception is a `raise` beside the state that it leaves.
--
-- Parameters, for code that is not in the repository: `Hashes` is hashlib's SHA-256 and zlib's CRC32,
-- with the length and range of a digest; `FastCipher` is the optional `cryptography` package, with
-- the round trip and the lengths that it documents; `Env` is the wall clock and `os.urandom`;
-- `Network` is what the operating system answers to a send, a join and a leave; `World` adds the
-- codecs and the callbacks, which are given by the calls that they make of the client; `Letters` is
-- `str.isalpha` and `str.isalnum`; `upper` is `str.upper` of a character; a job of Home Assistant is
-- what it does to the client; `Rendering` is how ESPHome's `cg` writes its types; `Encoded` and
-- `Literal` are what `str.encode` and `ast.literal_eval` answer. What `to_code` asks of `cg` is a list
-- of statements. Delays are milliseconds and windows seconds. Native numbers are Python's integers
-- where these are not negative; words keep the masks of the source.
--
-- Bounds and fuel. No loop needs more turns than are written: the loops of `chacha20` and `_poly1305`
-- take ceil(n / 64) and ceil(n / 16) turns for n bytes, as `range(0, n, 64)` and `range(0, n, 16)`
-- do, and the rest is recursion on a list or a number.
--
-- The digits of a number are written with fuel, one more than the number, since each digit divides it
-- by ten.
--
-- Not modelled: logging; the options of the socket (`_make_socket`) beyond its being made or not;
-- coroutine callbacks after they are scheduled; the schemas and coercions of `cv` and `vol`; the
-- service mpubsub.listen, the sensor and the switch of Home Assistant; the C++ component, the Go
-- bridge, the tests and the probe.
pub mod Prelude
pub mod Bits
pub mod Chacha
pub mod Poly
pub mod Aead
pub mod Topic
pub mod Wire
pub mod Replay
pub mod Rules
pub mod Client
pub mod Schema
pub mod HomeAssistant
pub mod Esphome
mod Tests
