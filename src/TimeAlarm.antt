-- ===== src/TimeAlarm.antt =====
-- The time and alarm device: time-alarm-service-interface and time-alarm-service.
pub mod Interface
pub mod Timer
pub mod Zone
pub mod Service
pub mod Tests
