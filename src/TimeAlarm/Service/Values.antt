-- ===== src/TimeAlarm/Service/Values.antt =====
-- What is set through the service is what is read from it: _STV and _TIV, _STP and _TIP, _SRT and _GRT.
use embedded_services.Base.{
  ℕ, ◌+◌, ◌-◌, ◌%◌, ◌^◌, ◌<◌, ◌≡◌, refl, false, none, some, Result, ok, err, arith, ◌==◌,
}
use embedded_services.TimeAlarm.Interface.{
  u32_max, disabled, AcpiTimerId, ac_power, dc_power, get_other_timer_id, DatetimeClockError,
  Datetime, Nvram, DatetimeClock,
}
use embedded_services.TimeAlarm.Timer.{Timer, Now, set_expiration_time, set_timer_wake_policy}
use embedded_services.TimeAlarm.Timer.Storage.{
  get_expiration_time-set, get_expiration_time-clear, set_expiration_time-none,
  set_expiration_time-some, get_timer_wake_policy-set,
}
use embedded_services.TimeAlarm.Zone.{IsZone, get_data-set_data}
use embedded_services.TimeAlarm.Service.{
  Timers, ServiceInner, AcpiTimestamp, get_timer, put_timer, set_timer_value, get_timer_value,
  program_seconds, remaining, get_real_time, set_real_time, timestamp_of, set_zone,
  get_expired_timer_policy, set_expired_timer_policy,
}

module _ {D S : Type 0} where
  get_timer_self :
      (id : AcpiTimerId) (u : Timer D S) (t : Timers D S) → get_timer id (put_timer id u t) ≡ u
  unfolding get_timer
  get_timer_self ac_power u t = refl
  get_timer_self dc_power u t = refl

  get_timer_other :
      (id : AcpiTimerId) (u : Timer D S) (t : Timers D S)
      → get_timer (get_other_timer_id id) (put_timer id u t) ≡ get_timer (get_other_timer_id id) t
  unfolding get_timer get_other_timer_id
  get_timer_other ac_power u t = refl
  get_timer_other dc_power u t = refl

module _ {D S C : Type 0} ⦃dt : Datetime D⦄ ⦃nv : Nvram S⦄ where
  -- Setting a timer to a number of seconds succeeds when the clock answers, and the timer then reads, at
  -- any time that the clock gives, as what is left of them, and 0 once they have passed; this needs the
  -- expiration to lie before the last second that a u32 can tell from "disabled". The other timer is
  -- not changed.
  pub get_timer_value-set :
      (now1 now2 now3 : D) (id : AcpiTimerId) (secs : ℕ) (s : ServiceInner D S C)
      → dt.unix_timestamp now1 + secs < u32_max
      → let r = set_timer_value (ok now1) (ok now2) id secs s in
        (r.0 ≡ ok tt)
        × (get_timer_value (ok now3) id r.1
            ≡ ok (dt.unix_timestamp now1 + secs - dt.unix_timestamp now3))
        × (get_timer (get_other_timer_id id) r.1.timers
            ≡ get_timer (get_other_timer_id id) s.timers)
  unfolding set_timer_value get_timer_value program_seconds remaining
  get_timer_value-set now1 now2 now3 id secs s h =
      let at = dt.unix_timestamp now1 + secs in
      let f : (secs == disabled) ≡ false = ground (arith, h) in
      let t = get_timer id s.timers in
      let u = (set_expiration_time (ok now2) (some (dt.from_unix_timestamp at)) t).1 in
      let e : (at - dt.unix_timestamp now3) % 2 ^ 32 ≡ at - dt.unix_timestamp now3 =
        omega (arith, h) in
      rw
        (
          f,
          get_timer_self id u s.timers,
          get_expiration_time-set now2 at t h,
          dt.unix_timestamp-from at,
          e,
        )
        (
          set_expiration_time-some now2 (dt.from_unix_timestamp at) t,
          refl,
          get_timer_other id u s.timers,
        )

  -- A disabled timer reads as disabled, whatever the clock answers.
  pub get_timer_value-disabled :
      (now1 now2 now3 : Now D) (id : AcpiTimerId) (s : ServiceInner D S C)
      → let r = set_timer_value now1 now2 id disabled s in
        (r.0 ≡ ok tt) × (get_timer_value now3 id r.1 ≡ ok disabled)
  unfolding set_timer_value get_timer_value remaining
  get_timer_value-disabled now1 now2 now3 id s =
      let t = get_timer id s.timers in
      let u = (set_expiration_time now2 none t).1 in
      rw (get_timer_self id u s.timers, get_expiration_time-clear now2 t)
        (set_expiration_time-none now2 t, refl)

module _ {D S C : Type 0} ⦃nv : Nvram S⦄ where
  -- A policy that was set with success is the policy that is read, and the other timer is not changed.
  pub get_expired_timer_policy-set :
      (now : Now D) (id : AcpiTimerId) (p : ℕ) (s : ServiceInner D S C)
      → let r = set_expired_timer_policy now id p s in
        r.0 ≡ ok tt
        → (get_expired_timer_policy id r.1 ≡ p)
          × (get_timer (get_other_timer_id id) r.1.timers
              ≡ get_timer (get_other_timer_id id) s.timers)
  unfolding set_expired_timer_policy get_expired_timer_policy
  get_expired_timer_policy-set now id p s h =
      let t = get_timer id s.timers in
      let u = (set_timer_wake_policy now p t).1 in
      rw (get_timer_self id u s.timers)
        (get_timer_wake_policy-set now p t h, get_timer_other id u s.timers)

module _ {D S C : Type 0} ⦃clk : DatetimeClock D C⦄ ⦃nv : Nvram S⦄ where
  set_zone-real_time :
      (ts : AcpiTimestamp D) (r : Result (Unit {0}) DatetimeClockError × C) (s : ServiceInner D S C)
      → IsZone ts.time_zone
      → (r.0 ≡ ok tt → clk.now r.1 ≡ ok ts.datetime)
      → let u = set_zone ts r s in
        u.0 ≡ ok tt → get_real_time (clk.now u.1.datetime_clock) u.1 ≡ ok ts
  unfolding set_zone get_real_time timestamp_of
  set_zone-real_time ts (ok u, c) s z f h =
      rw (f refl, get_data-set_data ts.time_zone ts.dst_status s.tz_data z) refl
  set_zone-real_time ts (err e, c) s z f h = absurd (ground (arith, h))

  -- The real time that was set with success, with its time zone and daylight savings status, is what is read
  -- before the clock goes on.
  pub get_real_time-set :
      (ts : AcpiTimestamp D) (s : ServiceInner D S C)
      → IsZone ts.time_zone
      → let r = set_real_time ts s in
        r.0 ≡ ok tt → get_real_time (clk.now r.1.datetime_clock) r.1 ≡ ok ts
  unfolding set_real_time
  get_real_time-set ts s z h =
      set_zone-real_time ts (clk.set ts.datetime s.datetime_clock) s z
        (clk.now-set ts.datetime s.datetime_clock) h
