-- ===== src/Esphome.antt =====
-- The configuration of the ESPHome component, components/mpubsub/__init__.py, after the coercions of
-- ESPHome's `cv`: the messages that may be declared, the checks across the parts of a configuration,
-- and the code that is generated from it.
pub mod Messages
pub mod Final
pub mod Codegen
pub mod Action
