-- ===== src/Hid.antt =====
-- HID over I2C: embedded-service/src/hid and hid-service/src/i2c.
pub mod Error
pub mod Opcode
pub mod Command
pub mod Descriptor
pub mod Host
pub mod Tests
