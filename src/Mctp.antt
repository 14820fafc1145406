-- ===== src/Mctp.antt =====
-- mctp-rs: the Management Component Transport Protocol.
pub mod Encoding
pub mod Serial
pub mod Header
pub mod Assembly
pub mod Sending
pub mod Smbus
pub mod Tests
