-- ===== src/TimeAlarm/Interface.antt =====
-- time-alarm-service-interface/src/lib.rs, and what the service takes from embedded_mcu_hal: a date
-- and time by its unix timestamp, a clock's errors, and storage for a `u32`.
use embedded_services.Base.{ℕ, ◌-◌, ◌^◌, ◌≡◌, Bool, false, Result, ok}

abbrev pub u32_max : ℕ
u32_max = 2 ^ 32 - 1

-- AlarmTimerSeconds::DISABLED: the alarm is not running.
abbrev pub disabled : ℕ
disabled = u32_max

-- AlarmExpiredWakePolicy::INSTANTLY and NEVER.
abbrev pub instantly : ℕ
instantly = 0

abbrev pub never : ℕ
never = u32_max

pub data AcpiTimerId : Type 0 where
  ac_power dc_power : AcpiTimerId

unfoldable pub get_other_timer_id : AcpiTimerId → AcpiTimerId
get_other_timer_id ac_power = dc_power
get_other_timer_id dc_power = ac_power

pub record TimerStatus : Type 0 where
  pub timer_expired : Bool
  pub timer_triggered_wake : Bool

abbrev pub default_status : TimerStatus
default_status = record { timer_expired = false; timer_triggered_wake = false }

pub record TimeAlarmDeviceCapabilities : Type 0 where
  pub ac_wake_implemented : Bool
  pub dc_wake_implemented : Bool
  pub realtime_implemented : Bool
  pub realtime_accuracy_in_milliseconds : Bool
  pub get_wake_status_supported : Bool
  pub ac_s4_wake_supported : Bool
  pub ac_s5_wake_supported : Bool
  pub dc_s4_wake_supported : Bool
  pub dc_s5_wake_supported : Bool

-- embedded_mcu_hal::time::DatetimeClockError
pub data DatetimeClockError : Type 0 where
  unsupported_datetime unknown not_enabled : DatetimeClockError

-- embedded_mcu_hal::time::Datetime, as far as the timers use it.
pub record Datetime (D : Type 0) : Type 0 where
  pub unix_timestamp : D → ℕ
  pub from_unix_timestamp : ℕ → D
  pub unix_timestamp-from : (n : ℕ) → unix_timestamp (from_unix_timestamp n) ≡ n

-- embedded_mcu_hal::nvram::NvramStorage<u32>: what was written is read.
pub record Nvram (S : Type 0) : Type 0 where
  pub read : S → ℕ
  pub write : ℕ → S → S
  pub read-write : (n : ℕ) (s : S) → read (write n s) ≡ n

-- embedded_mcu_hal::time::DatetimeClock: a clock that was set shows the time it was set to.
pub record DatetimeClock (D C : Type 0) : Type 0 where
  pub now : C → Result D DatetimeClockError
  pub set : D → C → Result (Unit {0}) DatetimeClockError × C
  pub now-set : (d : D) (c : C) → (set d c).0 ≡ ok tt → now (set d c).1 ≡ ok d
