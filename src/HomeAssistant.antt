-- ===== src/HomeAssistant.antt =====
-- The Home Assistant integration, custom_components/mpubsub: its transport (client.py), the options
-- that it accepts (config_flow.py), the entities.
pub mod Transport
pub mod Agree
pub mod Options
pub mod Deliver
pub mod Services
pub mod BinarySensor
pub mod Refines
