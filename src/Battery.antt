-- ===== src/Battery.antt =====
-- battery-service-relay/src/serialization.rs: the messages between a host and the battery service.
pub mod Buffer
pub mod Message
pub mod Response
pub mod Request
pub mod Tests
