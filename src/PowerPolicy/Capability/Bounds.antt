-- ===== src/PowerPolicy/Capability/Bounds.antt =====
-- The arithmetic of `max_power_mw` on `u16` fields.
use embedded_services.Base.{ℕ, ◌*◌, ◌/◌, ◌≤◌, ◌≡◌, arith}
use embedded_services.PowerPolicy.Capability.{PowerCapability, IsU16, max_power_mw}

product-le : (a b m n : ℕ) → a ≤ m → b ≤ n → a * b ≤ m * n
product-le a b m n p q = grind arith

-- The product of the two fields never wraps in `u32`, so `max_power_mw` is the true power, rounded
-- down, and at most 4294836 mW.
pub max_power_mw_exact :
    (c : PowerCapability)
    → IsU16 c
    → (max_power_mw c ≡ c.voltage_mv * c.current_ma / 1000) × (max_power_mw c ≤ 4294836)
unfolding max_power_mw
max_power_mw_exact c u =
    omega (arith, product-le c.voltage_mv c.current_ma 65535 65535 (omega arith) (omega arith))
