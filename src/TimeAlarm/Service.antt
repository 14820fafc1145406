-- ===== src/TimeAlarm/Service.antt =====
-- time-alarm-service/src/lib.rs: Timers and ServiceInner, whose methods Service passes on. A method
-- that reads the clock takes what it read, one argument for each reading, in their order.
pub mod Values
pub mod Power
use embedded_services.Base.{
  ℕ, ◌+◌, ◌-◌, ◌%◌, ◌^◌, ◌<◌, ◌≡◌, Bool, true, false, Option, none, some, Result, ok, err, ltb,
  ◌==◌, if◌then◌else◌,
}
use embedded_services.Base.Exec.{◌>>◌}
use embedded_services.TimeAlarm.Interface.{
  disabled, never, AcpiTimerId, ac_power, dc_power, get_other_timer_id, TimerStatus,
  TimeAlarmDeviceCapabilities, DatetimeClockError, Datetime, Nvram, DatetimeClock,
}
use embedded_services.TimeAlarm.Timer
use embedded_services.TimeAlarm.Timer.{Timer, Now, to_u32}
use embedded_services.TimeAlarm.Zone.{TimeZone, DaylightStatus, set_data, get_data}

pub record Timers (D S : Type 0) : Type 0 where
  pub ac_timer : Timer D S
  pub dc_timer : Timer D S

-- ServiceInner with its ClockState.
pub record ServiceInner (D S C : Type 0) : Type 0 where
  pub datetime_clock : C
  pub tz_data : S
  pub timers : Timers D S
  pub capabilities : TimeAlarmDeviceCapabilities

pub record AcpiTimestamp (D : Type 0) : Type 0 where
  pub datetime : D
  pub time_zone : TimeZone
  pub dst_status : DaylightStatus

abbrev pub Outcome : Type 0 → Type 0
Outcome A = Result A DatetimeClockError

abbrev pub service_capabilities : TimeAlarmDeviceCapabilities
service_capabilities = record {
  ac_wake_implemented = true;
  dc_wake_implemented = true;
  realtime_implemented = true;
  realtime_accuracy_in_milliseconds = false;
  get_wake_status_supported = true;
  ac_s4_wake_supported = true;
  ac_s5_wake_supported = true;
  dc_s4_wake_supported = true;
  dc_s5_wake_supported = true;
}

module _ {D S : Type 0} where
  unfoldable pub get_timer : AcpiTimerId → Timers D S → Timer D S
  get_timer ac_power t = t.ac_timer
  get_timer dc_power t = t.dc_timer

  -- A method of one timer, through `get_timer`.
  abbrev pub put_timer : AcpiTimerId → Timer D S → Timers D S → Timers D S
  put_timer ac_power u t = record t { ac_timer = u }
  put_timer dc_power u t = record t { dc_timer = u }

module _ {D S C : Type 0} where
  abbrev pub on_timer :
      AcpiTimerId → (Timer D S → Timer D S) → ServiceInner D S C → ServiceInner D S C
  on_timer id f s = record s { timers = put_timer id (f (get_timer id s.timers)) s.timers }

  abbrev pub try_timer :
      AcpiTimerId
      → (Timer D S → Outcome (Unit {0}) × Timer D S)
      → ServiceInner D S C
      → Outcome (Unit {0}) × ServiceInner D S C
  try_timer id f s =
      let r = f (get_timer id s.timers) in (r.0, record s { timers = put_timer id r.1 s.timers })

  unfoldable pub new : C → S → S → S → S → S → ServiceInner D S C
  unfolding Timer.new
  new clock tz ac_expiration ac_policy dc_expiration dc_policy = record {
    datetime_clock = clock;
    tz_data = tz;
    timers = record {
      ac_timer = Timer.new ac_expiration ac_policy;
      dc_timer = Timer.new dc_expiration dc_policy;
    };
    capabilities = service_capabilities;
  }

  unfoldable pub get_capabilities : ServiceInner D S C → TimeAlarmDeviceCapabilities
  get_capabilities s = s.capabilities

  unfoldable pub get_wake_status : AcpiTimerId → ServiceInner D S C → TimerStatus
  get_wake_status id s = Timer.get_wake_status (get_timer id s.timers)

  unfoldable pub clear_wake_status : AcpiTimerId → ServiceInner D S C → ServiceInner D S C
  clear_wake_status id s = on_timer id Timer.clear_wake_status s

timestamp_of : {D : Type 0} → Now D → TimeZone × DaylightStatus → Outcome (AcpiTimestamp D)
timestamp_of (ok d) z = ok (record { datetime = d; time_zone = z.0; dst_status = z.1 })
timestamp_of (err e) z = err e

module _ {D : Type 0} ⦃dt : Datetime D⦄ where
  remaining : Option D → Now D → Outcome ℕ
  remaining none now = ok disabled
  remaining (some e) (ok now) = ok (to_u32 (dt.unix_timestamp e - dt.unix_timestamp now))
  remaining (some e) (err x) = err x

module _ {D S C : Type 0} ⦃nv : Nvram S⦄ where
  unfoldable pub get_real_time : Now D → ServiceInner D S C → Outcome (AcpiTimestamp D)
  unfolding timestamp_of
  get_real_time now s = timestamp_of now (get_data s.tz_data)

  unfoldable pub get_expired_timer_policy : AcpiTimerId → ServiceInner D S C → ℕ
  get_expired_timer_policy id s = Timer.get_timer_wake_policy (get_timer id s.timers)

  unfoldable pub set_expired_timer_policy :
      Now D → AcpiTimerId → ℕ → ServiceInner D S C → Outcome (Unit {0}) × ServiceInner D S C
  set_expired_timer_policy now id p s = try_timer id (Timer.set_timer_wake_policy now p) s

module _ {D S C : Type 0} ⦃clk : DatetimeClock D C⦄ ⦃nv : Nvram S⦄ where
  set_zone :
      AcpiTimestamp D
      → Outcome (Unit {0}) × C
      → ServiceInner D S C
      → Outcome (Unit {0}) × ServiceInner D S C
  set_zone ts (ok u, c) s = (
    ok tt,
    record s { datetime_clock = c; tz_data = set_data ts.time_zone ts.dst_status s.tz_data },
  )
  set_zone ts (err e, c) s = (err e, record s { datetime_clock = c })

  unfoldable pub set_real_time :
      AcpiTimestamp D → ServiceInner D S C → Outcome (Unit {0}) × ServiceInner D S C
  unfolding set_zone
  set_real_time ts s = set_zone ts (clk.set ts.datetime s.datetime_clock) s

module _ {D S C : Type 0} ⦃dt : Datetime D⦄ ⦃nv : Nvram S⦄ where
  program_seconds :
      Now D → Now D → AcpiTimerId → ℕ → ServiceInner D S C → Outcome (Unit {0}) × ServiceInner D S C
  program_seconds (ok now) now2 id secs s =
      try_timer id
        (Timer.set_expiration_time now2
          (some (dt.from_unix_timestamp (dt.unix_timestamp now + secs))))
        s
  program_seconds (err e) now2 id secs s = (err e, s)

  unfoldable pub set_timer_value :
      Now D → Now D → AcpiTimerId → ℕ → ServiceInner D S C → Outcome (Unit {0}) × ServiceInner D S C
  unfolding program_seconds
  set_timer_value now1 now2 id value s =
      if value == disabled
      then try_timer id (Timer.set_expiration_time now2 none) s
      else program_seconds now1 now2 id value s

  unfoldable pub get_timer_value : Now D → AcpiTimerId → ServiceInner D S C → Outcome ℕ
  unfolding remaining
  get_timer_value now id s = remaining (Timer.get_expiration_time (get_timer id s.timers)) now

  -- One round of handle_power_source_updates.
  unfoldable pub power_source_changed :
      Now D → Now D → AcpiTimerId → ServiceInner D S C → ServiceInner D S C
  power_source_changed now1 now2 id s =
      on_timer id (Timer.set_active now2 true)
        (on_timer (get_other_timer_id id) (Timer.set_active now1 false) s)

  -- What handle_timer does when `wait_until_wake` has returned.
  unfoldable pub woken : Now D → AcpiTimerId → ServiceInner D S C → ServiceInner D S C
  woken now id s =
      on_timer (get_other_timer_id id) (λ t. (Timer.set_timer_wake_policy now never t).1) s

  -- Service::new on a fresh ServiceInner: the AC timer is taken for the active one.
  unfoldable pub start_timers :
      Now D
      → Now D
      → Now D
      → Now D
      → Now D
      → Now D
      → ServiceInner D S C
      → Outcome (Unit {0}) × ServiceInner D S C
  start_timers a1 a2 a3 d1 d2 d3 s =
      (try_timer ac_power (Timer.start a1 a2 a3 true)
          >> try_timer dc_power (Timer.start d1 d2 d3 false))
        s
