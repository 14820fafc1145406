-- ===== src/PowerPolicy.antt =====
-- The power policy: power-policy-interface and power-policy-service.
pub mod Capability
pub mod Charger
pub mod Psu
pub mod Event
pub mod Device
pub mod Service
pub mod Fixture
pub mod Tests
