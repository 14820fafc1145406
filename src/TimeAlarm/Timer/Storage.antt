-- ===== src/TimeAlarm/Timer/Storage.antt =====
-- The expiration time and the policy that a timer stores.
use embedded_services.Base.{ℕ, ◌%◌, ◌^◌, ◌<◌, ◌≡◌, refl, false, none, some, ok, err, arith, ◌==◌}
use embedded_services.TimeAlarm.Interface.{u32_max, Datetime, Nvram}
use embedded_services.TimeAlarm.Timer.{
  WakeState, clear, armed, expired_orphaned, expired_waiting_for_policy_delay,
  expired_waiting_for_power_source, Timer, Now, no_expiration_time, get_expiration_time,
  set_expiration_time, program, clear_expiration_time, get_timer_wake_policy, set_timer_wake_policy,
  restart_delay, then_store,
}

module _ {D S : Type 0} ⦃dt : Datetime D⦄ ⦃nv : Nvram S⦄ where
  pub get_expiration_time-set :
      (now : D) (secs : ℕ) (t : Timer D S)
      → secs < u32_max
      → get_expiration_time (set_expiration_time (ok now) (some (dt.from_unix_timestamp secs)) t).1
        ≡ some (dt.from_unix_timestamp secs)
  unfolding get_expiration_time set_expiration_time program
  get_expiration_time-set now secs t h =
      let e : secs % 2 ^ 32 ≡ secs = omega arith in
      let f : (secs == no_expiration_time) ≡ false = ground (arith, h) in
      rw
        (dt.unix_timestamp-from secs, nv.read-write (secs % 2 ^ 32) t.expiration_time_storage, e, f)
        refl

  pub get_expiration_time-clear :
      (now : Now D) (t : Timer D S) → get_expiration_time (set_expiration_time now none t).1 ≡ none
  unfolding get_expiration_time set_expiration_time program clear_expiration_time
  get_expiration_time-clear now t =
      rw (nv.read-write no_expiration_time t.expiration_time_storage) refl

  pub set_expiration_time-none :
      (now : Now D) (t : Timer D S) → (set_expiration_time now none t).0 ≡ ok tt
  unfolding set_expiration_time program
  set_expiration_time-none now t = refl

  pub set_expiration_time-some :
      (now e : D) (t : Timer D S) → (set_expiration_time (ok now) (some e) t).0 ≡ ok tt
  unfolding set_expiration_time program
  set_expiration_time-some now e t = refl

module _ {D S : Type 0} ⦃nv : Nvram S⦄ where
  restart_delay_policy :
      (w : WakeState D) (now : Now D) (p : ℕ) (t : Timer D S)
      → let r = then_store p (restart_delay w now p t) in
        r.0 ≡ ok tt → get_timer_wake_policy r.1 ≡ p
  unfolding restart_delay get_timer_wake_policy
  restart_delay_policy (expired_waiting_for_policy_delay d n) (ok now) p t h =
      nv.read-write p t.wake_policy_storage
  restart_delay_policy (expired_waiting_for_policy_delay d n) (err x) p t h =
      absurd (ground (arith, h))
  restart_delay_policy clear now p t h = nv.read-write p t.wake_policy_storage
  restart_delay_policy armed now p t h = nv.read-write p t.wake_policy_storage
  restart_delay_policy expired_orphaned now p t h = nv.read-write p t.wake_policy_storage
  restart_delay_policy (expired_waiting_for_power_source n) now p t h =
      nv.read-write p t.wake_policy_storage

  pub get_timer_wake_policy-set :
      (now : Now D) (p : ℕ) (t : Timer D S)
      → (set_timer_wake_policy now p t).0 ≡ ok tt
      → get_timer_wake_policy (set_timer_wake_policy now p t).1 ≡ p
  unfolding set_timer_wake_policy
  get_timer_wake_policy-set now p t h = restart_delay_policy t.wake_state now p t h

  restart_delay_ok :
      (w : WakeState D) (now : D) (p : ℕ) (t : Timer D S)
      → (then_store p (restart_delay w (ok now) p t)).0 ≡ ok tt
  unfolding restart_delay
  restart_delay_ok (expired_waiting_for_policy_delay d n) now p t = refl
  restart_delay_ok clear now p t = refl
  restart_delay_ok armed now p t = refl
  restart_delay_ok expired_orphaned now p t = refl
  restart_delay_ok (expired_waiting_for_power_source n) now p t = refl

  pub set_timer_wake_policy_ok :
      (now : D) (p : ℕ) (t : Timer D S) → (set_timer_wake_policy (ok now) p t).0 ≡ ok tt
  unfolding set_timer_wake_policy
  set_timer_wake_policy_ok now p t = restart_delay_ok t.wake_state now p t
