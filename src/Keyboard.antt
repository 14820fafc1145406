-- ===== src/Keyboard.antt =====
-- keyboard-service/src: the scanning of a key matrix.
pub mod Ghost
pub mod Scan
pub mod Tests
