-- ===== src/Protocol.antt =====
-- internal/protocol: the MQTT packets and the Alink payloads that the bulbs exchange with the server.
pub mod Error
pub mod Wire
pub mod Connect
pub mod Publish
pub mod Subscribe
pub mod Alink
