-- ===== src/Tests.antt =====
-- Runs at concrete inputs, and each property at an input that meets its hypotheses.
mod Data
mod Chacha
mod Poly
mod Aead
mod Wire
mod Replay
mod Rules
mod Client
mod Schema
mod Esphome
mod HomeAssistant
mod BinarySensor
