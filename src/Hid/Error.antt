-- ===== src/Hid/Error.antt =====
-- The errors of embedded-service/src/hid/mod.rs.
use embedded_services.Base.{ℕ}

-- hid::Error
pub data Error : Type 0 where
  invalid_data invalid_register_address invalid_device invalid_command requires_report_id : Error
  requires_data invalid_report_type invalid_report_freq transport timeout serialize : Error
  invalid_size : ℕ → ℕ → Error
