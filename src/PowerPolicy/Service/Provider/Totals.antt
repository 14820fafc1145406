-- ===== src/PowerPolicy/Service/Provider/Totals.antt =====
-- The sum of the powers that are supplied.
use embedded_services.Base.{
  ℕ, ◌+◌, ◌*◌, ◌%◌, ◌^◌, ◌≤◌, ◌<◌, ◌≡◌, List, [], ◌∷◌, Option, none, some, arith, length, All,
}
use embedded_services.PowerPolicy.Capability.{ProviderPowerCapability, IsU16}
use embedded_services.PowerPolicy.Capability.Bounds.{max_power_mw_exact}
use embedded_services.PowerPolicy.Device.{PsuDriver}
use embedded_services.PowerPolicy.Service.{Service}
use embedded_services.PowerPolicy.Service.Provider.{
  power_of, total_power_from, supply_of, compute_total_provider_power_mw,
}

-- The sum without wrapping.
unfoldable pub sum_power : (ℕ → Option ProviderPowerCapability) → List ℕ → ℕ
sum_power supply [] = 0
sum_power supply (a ∷ psus) = power_of (supply a) + sum_power supply psus

pub total_power_from-mod :
    (supply : ℕ → Option ProviderPowerCapability) (total : ℕ) (psus : List ℕ)
    → total < 2 ^ 32
    → total_power_from supply total psus ≡ (total + sum_power supply psus) % 2 ^ 32
unfolding total_power_from sum_power
total_power_from-mod supply total [] h = omega arith
total_power_from-mod supply total (a ∷ psus) h =
    omega (
      arith,
      total_power_from-mod supply ((total + power_of (supply a)) % 2 ^ 32) psus (omega arith),
    )

-- A capability whose fields are `u16`.
abbrev pub Fits : Option ProviderPowerCapability → Type 0
Fits none = Unit
Fits (some c) = IsU16 c.capability

power_of-le : (o : Option ProviderPowerCapability) → Fits o → power_of o ≤ 4294836
power_of-le none h = omega arith
power_of-le (some c) h = (max_power_mw_exact c.capability h).1

sum_power-le :
    (supply : ℕ → Option ProviderPowerCapability) (psus : List ℕ)
    → All (λ a. Fits (supply a)) psus
    → sum_power supply psus ≤ 4294836 * length psus
unfolding sum_power
sum_power-le supply [] h = omega arith
sum_power-le supply (a ∷ psus) h =
    omega (arith, power_of-le (supply a) h.0, sum_power-le supply psus h.1)

-- A larger supply of every PSU is a larger sum.
pub sum_power_mono :
    (f g : ℕ → Option ProviderPowerCapability) (psus : List ℕ)
    → ((a : ℕ) → power_of (f a) ≤ power_of (g a))
    → sum_power f psus ≤ sum_power g psus
unfolding sum_power
sum_power_mono f g [] h = omega arith
sum_power_mono f g (a ∷ psus) h = omega (arith, h a, sum_power_mono f g psus h)

module _ {P C N K : Type 0} ⦃pd : PsuDriver P⦄ where
  -- With at most 1000 registered PSUs and `u16` fields the `u32` sum does not wrap: the reported
  -- total is the sum of the powers that the connected providers supply, and at most 4294836 mW each.
  pub compute_total_exact :
      (s : Service P C N K)
      → length s.psus ≤ 1000
      → All (λ a. Fits (supply_of s a)) s.psus
      → (compute_total_provider_power_mw s ≡ sum_power (supply_of s) s.psus)
        × (compute_total_provider_power_mw s ≤ 4294836 * length s.psus)
  unfolding compute_total_provider_power_mw
  compute_total_exact s n h = omega (
    arith,
    total_power_from-mod (supply_of s) 0 s.psus (omega arith),
    sum_power-le (supply_of s) s.psus h,
  )
