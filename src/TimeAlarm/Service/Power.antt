-- ===== src/TimeAlarm/Service/Power.antt =====
-- Which of the two timers is active, and what the service does when one of them wakes the host.
use embedded_services.Base.{◌≡◌, true, false, Result, ok, sym, ◌∙◌, ap}
use embedded_services.TimeAlarm.Interface.{
  never, AcpiTimerId, ac_power, dc_power, get_other_timer_id, DatetimeClockError, Datetime, Nvram,
}
use embedded_services.TimeAlarm.Timer.{Now, get_timer_wake_policy, process_expired_timer, start}
use embedded_services.TimeAlarm.Timer.Storage.{get_timer_wake_policy-set, set_timer_wake_policy_ok}
use embedded_services.TimeAlarm.Timer.Wake.{HasRung, process_expired_timer-HasRung}
use embedded_services.Base.Exec.{bind-ok}
use embedded_services.TimeAlarm.Timer.Activity.{set_active_lem, start_lem}
use embedded_services.TimeAlarm.Service.{
  ServiceInner, get_timer, try_timer, on_timer, power_source_changed, woken, start_timers,
}

module _ {D S C : Type 0} where
  -- Exactly one timer is active.
  pub record IsActive (id : AcpiTimerId) (s : ServiceInner D S C) : Type 0 where
    pub this : (get_timer id s.timers).is_active ≡ true
    pub other : (get_timer (get_other_timer_id id) s.timers).is_active ≡ false

module _ {D S C : Type 0} ⦃dt : Datetime D⦄ ⦃nv : Nvram S⦄ where
  -- Once the power source has changed, the timer of the new source is active and the other is not,
  -- whatever they were and whatever the clock answered.
  pub power_source_changed-IsActive :
      (now1 now2 : Now D) (id : AcpiTimerId) (s : ServiceInner D S C)
      → IsActive id (power_source_changed now1 now2 id s)
  unfolding power_source_changed get_timer get_other_timer_id
  power_source_changed-IsActive now1 now2 ac_power s = record {
    this = set_active_lem now2 true s.timers.ac_timer;
    other = set_active_lem now1 false s.timers.dc_timer;
  }
  power_source_changed-IsActive now1 now2 dc_power s = record {
    this = set_active_lem now2 true s.timers.dc_timer;
    other = set_active_lem now1 false s.timers.ac_timer;
  }

  -- A service that has started runs on the AC timer alone.
  pub start_timers-IsActive :
      (a1 a2 a3 d1 d2 d3 : Now D) (s : ServiceInner D S C)
      → (start_timers a1 a2 a3 d1 d2 d3 s).0 ≡ ok tt
      → IsActive ac_power (start_timers a1 a2 a3 d1 d2 d3 s).1
  unfolding start_timers get_timer get_other_timer_id
  start_timers-IsActive a1 a2 a3 d1 d2 d3 s h =
      let m = try_timer ac_power (start a1 a2 a3 true) in
      let n = try_timer dc_power (start d1 d2 d3 false) in
      let b = bind-ok m (λ _. n) s h in
      let k : (n (m s).1).0 ≡ ok tt =
        sym (ap (λ (r : Result (Unit {0}) DatetimeClockError × ServiceInner D S C). r.0) b.2) ∙ h in
      rw (b.2) record {
        this = start_lem a1 a2 a3 true s.timers.ac_timer b.1;
        other = start_lem d1 d2 d3 false s.timers.dc_timer k;
      }

  -- When a timer wakes the host and the clock answers then, it is off afterwards, and the other timer will not wake the host
  -- once it has expired while inactive: its policy is "never".
  pub woken_lem :
      (now : Now D) (now2 : D) (id : AcpiTimerId) (s : ServiceInner D S C)
      → (process_expired_timer now (get_timer id s.timers)).0 ≡ true
      → let u = woken (ok now2) id (on_timer id (λ t. (process_expired_timer now t).1) s) in
        HasRung (get_timer id u.timers)
        × (get_timer_wake_policy (get_timer (get_other_timer_id id) u.timers) ≡ never)
  unfolding woken get_timer get_other_timer_id
  woken_lem now now2 ac_power s h = (
    process_expired_timer-HasRung now s.timers.ac_timer h,
    get_timer_wake_policy-set (ok now2) never s.timers.dc_timer
        (set_timer_wake_policy_ok now2 never s.timers.dc_timer),
  )
  woken_lem now now2 dc_power s h = (
    process_expired_timer-HasRung now s.timers.dc_timer h,
    get_timer_wake_policy-set (ok now2) never s.timers.ac_timer
        (set_timer_wake_policy_ok now2 never s.timers.ac_timer),
  )
