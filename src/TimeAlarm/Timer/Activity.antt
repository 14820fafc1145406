-- ===== src/TimeAlarm/Timer/Activity.antt =====
-- Only `set_active` changes whether a timer is active.
use embedded_services.Base.{◌≡◌, refl, Bool, true, false, Option, Result, ok, err, arith}
use embedded_services.TimeAlarm.Interface.{DatetimeClockError, Datetime, Nvram}
use embedded_services.TimeAlarm.Timer.{
  WakeState, clear, armed, expired_orphaned, expired_waiting_for_policy_delay,
  expired_waiting_for_power_source, Timer, Now, set_active, switch_active, resume, suspend,
  set_timer_wake_policy, set_expiration_time, and_then, start, get_expiration_time,
  get_timer_wake_policy,
}

module _ {D S : Type 0} ⦃dt : Datetime D⦄ ⦃nv : Nvram S⦄ where
  resume_activity :
      (w : WakeState D) (now : Now D) (t : Timer D S) → (resume w now t).is_active ≡ t.is_active
  unfolding resume
  resume_activity (expired_waiting_for_power_source n) (ok now) t = refl
  resume_activity (expired_waiting_for_power_source n) (err x) t = refl
  resume_activity (expired_waiting_for_policy_delay d n) now t = refl
  resume_activity clear now t = refl
  resume_activity armed now t = refl
  resume_activity expired_orphaned now t = refl

  suspend_activity :
      (w : WakeState D) (now : Now D) (t : Timer D S) → (suspend w now t).is_active ≡ t.is_active
  unfolding suspend
  suspend_activity (expired_waiting_for_power_source n) now t = refl
  suspend_activity (expired_waiting_for_policy_delay d n) now t = refl
  suspend_activity clear now t = refl
  suspend_activity armed now t = refl
  suspend_activity expired_orphaned now t = refl

  switch_activity :
      (was b : Bool) (now : Now D) (t : Timer D S)
      → (switch_active was b now t).is_active ≡ t.is_active
  unfolding switch_active
  switch_activity false true now t = resume_activity t.wake_state now t
  switch_activity true false now t = suspend_activity t.wake_state now t
  switch_activity true true now t = refl
  switch_activity false false now t = refl

  pub set_active_lem : (now : Now D) (b : Bool) (t : Timer D S) → (set_active now b t).is_active ≡ b
  unfolding set_active
  set_active_lem now b t = switch_activity t.is_active b now (record t { is_active = b })

  and_then_activity :
      (now : Now D) (b : Bool) (r : Result (Unit {0}) DatetimeClockError × Timer D S)
      → let u = and_then r (λ t. (ok tt, set_active now b t)) in u.0 ≡ ok tt → u.1.is_active ≡ b
  and_then_activity now b (ok u, t) h = set_active_lem now b t
  and_then_activity now b (err x, t) h = absurd (ground (arith, h))

  start_rest_activity :
      (now2 now3 : Now D) (b : Bool) (f : Timer D S → Option D)
      (r : Result (Unit {0}) DatetimeClockError × Timer D S)
      → let u =
          and_then r λ t1.
            and_then (set_expiration_time now2 (f t1) t1) λ t2. (ok tt, set_active now3 b t2) in
        u.0 ≡ ok tt → u.1.is_active ≡ b
  start_rest_activity now2 now3 b f (ok u, t) h =
      and_then_activity now3 b (set_expiration_time now2 (f t) t) h
  start_rest_activity now2 now3 b f (err x, t) h = absurd (ground (arith, h))

  pub start_lem :
      (now1 now2 now3 : Now D) (b : Bool) (t : Timer D S)
      → (start now1 now2 now3 b t).0 ≡ ok tt
      → (start now1 now2 now3 b t).1.is_active ≡ b
  unfolding start
  start_lem now1 now2 now3 b t h =
      start_rest_activity now2 now3 b get_expiration_time
        (set_timer_wake_policy now1 (get_timer_wake_policy t) t) h
