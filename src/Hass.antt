-- ===== src/Hass.antt =====
-- internal/hass: the bridge to Home Assistant.
pub mod Config
pub mod Convert
pub mod Command
pub mod Entity
pub mod Discovery
pub mod Bridge
