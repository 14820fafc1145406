-- ===== src/Relay.antt =====
-- embedded-service/src/relay/hid.rs: report descriptors of HID devices and their combination.
pub mod Item
pub mod Descriptor
pub mod Blocks
pub mod IdMap
pub mod Combine
pub mod Tests
