-- ===== src/PowerButton.antt =====
-- power-button-service/src: a button behind a debouncer.
pub mod Debounce
