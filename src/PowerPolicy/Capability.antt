-- ===== src/PowerPolicy/Capability.antt =====
-- power-policy-interface/src/capability.rs: the power that a device offers or asks for. Voltages and
-- currents are `u16`, powers `u32`; `IsU16` of both parts is what the Rust types promise.
pub mod Bounds
use embedded_services.Base.{
  ℕ, ◌*◌, ◌/◌, ◌%◌, ◌^◌, ◌<◌, Bool, true, false, Option, none, some, compare, Ordering, ltb,
  ℕ_discrete,
}

pub record PowerCapability : Type 0 where
  pub voltage_mv : ℕ
  pub current_ma : ℕ

-- What the field types promise.
pub record IsU16 (c : PowerCapability) : Type 0 where
  pub voltage_lt : c.voltage_mv < 2 ^ 16
  pub current_lt : c.current_ma < 2 ^ 16

-- The product of two `u32`, which wraps, then the division.
unfoldable pub max_power_mw : PowerCapability → ℕ
max_power_mw c = c.voltage_mv * c.current_ma % 2 ^ 32 / 1000

-- `Ord::cmp`, by power; `PartialEq` is derived, by the fields.
unfoldable pub cmp : PowerCapability → PowerCapability → Ordering
cmp a b = compare (max_power_mw a) (max_power_mw b)

unfoldable pub PowerCapability-discrete : Discrete PowerCapability
PowerCapability-discrete = hlevel ℕ_discrete

pub data PsuType : Type 0 where
  type_c dc_jack custom0 custom1 custom2 custom3 : PsuType

pub record ConsumerFlags : Type 0 where
  pub unconstrained_power : Bool
  pub psu_type : Option PsuType

abbrev pub default_consumer_flags : ConsumerFlags
default_consumer_flags = record { unconstrained_power = false; psu_type = none }

pub record ProviderFlags : Type 0 where
  pub psu_type : Option PsuType

abbrev pub default_provider_flags : ProviderFlags
default_provider_flags = record { psu_type = none }

pub record ConsumerPowerCapability : Type 0 where
  pub capability : PowerCapability
  pub flags : ConsumerFlags

pub record ProviderPowerCapability : Type 0 where
  pub capability : PowerCapability
  pub flags : ProviderFlags

abbrev pub consumer_of : PowerCapability → ConsumerPowerCapability
consumer_of c = record { capability = c; flags = default_consumer_flags }

abbrev pub provider_of : PowerCapability → ProviderPowerCapability
provider_of c = record { capability = c; flags = default_provider_flags }

unfoldable pub ConsumerPowerCapability-discrete : Discrete ConsumerPowerCapability
ConsumerPowerCapability-discrete = hlevel ℕ_discrete

unfoldable pub ProviderPowerCapability-discrete : Discrete ProviderPowerCapability
ProviderPowerCapability-discrete = hlevel ℕ_discrete

pub data DisconnectReason : Type 0 where
  detached switching auto_renegotiation manual_renegotiation role_swap reset : DisconnectReason

unfoldable pub is_renegotiation : DisconnectReason → Bool
is_renegotiation auto_renegotiation = true
is_renegotiation manual_renegotiation = true
is_renegotiation _ = false

pub record DisconnectFlags : Type 0 where
  pub reason : Option DisconnectReason

abbrev pub default_disconnect_flags : DisconnectFlags
default_disconnect_flags = record { reason = none }
