-- ===== src/TimeAlarm/Timer/Awaited.antt =====
-- No wake is lost: a timer that may ring is waited for.
use embedded_services.Base.{
  ℕ, ◌≡◌, refl, Bool, true, false, Option, none, some, Result, ok, err, arith, ltb, if_branches,
  sym, subst, ap, List, [], ◌∷◌,
}
use embedded_services.TimeAlarm.Interface.{default_status, DatetimeClockError, Datetime, Nvram}
use embedded_services.TimeAlarm.Timer.{
  WakeState, clear, armed, expired_orphaned, expired_waiting_for_policy_delay,
  expired_waiting_for_power_source, Timer, Now, clear_wake_status, get_timer_wake_policy,
  set_timer_wake_policy, restart_delay, then_store, set_expiration_time, program, set_active,
  switch_active, resume, suspend, clear_expiration_time, ring, waiting, mark_expired, expire,
  check_expired, fire, fire_from, process_expired_timer,
}
use embedded_services.TimeAlarm.Timer.Wake.{is_running, process_expired_timer-HasRung}
use embedded_services.TimeAlarm.Timer.History.{
  Call, reset_status, program_policy, program_expiration, switch_power, count_down_ended, perform,
}
use embedded_services.TimeAlarm.Timer.Loop.{
  Waiting, for_signal, counting, TaskEvent, seconds_passed, signalled, called, take_signal,
  after_expiry, task_step, task_run,
}

-- The task counts down once it has seen the last signal.
abbrev pub will_count : Option (Option ℕ) → Waiting → Bool
will_count (some (some s)) k = true
will_count (some none) k = false
will_count none (counting s) = true
will_count none for_signal = false

waiting_stops : {D : Type 0} (policy : ℕ) (w : WakeState D) → is_running (waiting policy w) ≡ false
unfolding waiting
waiting_stops policy w = ground arith

module _ {D S : Type 0} where
  -- A timer that may ring has a task that counts down, or a signal that makes it.
  abbrev pub IsAwaited : Waiting → Timer D S → Type 0
  IsAwaited k t = is_running t.wake_state ≡ true → will_count t.pending k ≡ true

  stopped-IsAwaited :
      (k : Waiting) (t : Timer D S) → is_running t.wake_state ≡ false → IsAwaited k t
  stopped-IsAwaited k t h r = absurd (ground (arith, h, r))

module _ {D S : Type 0} ⦃nv : Nvram S⦄ where
  restart_delay-IsAwaited :
      (k : Waiting) (w : WakeState D) (now : Now D) (p : ℕ) (t : Timer D S)
      → IsAwaited k t
      → IsAwaited k (restart_delay w now p t).1
  unfolding restart_delay
  restart_delay-IsAwaited k (expired_waiting_for_policy_delay d n) (ok now) p t h = λ _. refl
  restart_delay-IsAwaited k (expired_waiting_for_policy_delay d n) (err x) p t h = h
  restart_delay-IsAwaited k clear now p t h = h
  restart_delay-IsAwaited k armed now p t h = h
  restart_delay-IsAwaited k expired_orphaned now p t h = h
  restart_delay-IsAwaited k (expired_waiting_for_power_source n) now p t h = h

  then_store-IsAwaited :
      (k : Waiting) (p : ℕ) (r : Result (Unit {0}) DatetimeClockError) (t : Timer D S)
      → IsAwaited k t
      → IsAwaited k (then_store p (r, t)).1
  then_store-IsAwaited k p (ok u) t h = h
  then_store-IsAwaited k p (err x) t h = h

module _ {D S : Type 0} ⦃dt : Datetime D⦄ ⦃nv : Nvram S⦄ where
  program-IsAwaited :
      (k : Waiting) (e : Option D) (now : Now D) (t : Timer D S)
      → IsAwaited k t
      → IsAwaited k (program e now t).1
  unfolding program clear_expiration_time
  program-IsAwaited k none now t h = stopped-IsAwaited k (clear_expiration_time t) refl
  program-IsAwaited k (some d) (err x) t h = h
  program-IsAwaited k (some d) (ok now) t h = λ _. refl

  resume-IsAwaited :
      (k : Waiting) (w : WakeState D) (now : Now D) (t : Timer D S)
      → IsAwaited k t
      → IsAwaited k (resume w now t)
  unfolding resume
  resume-IsAwaited k (expired_waiting_for_power_source n) (ok now) t h = λ _. refl
  resume-IsAwaited k (expired_waiting_for_power_source n) (err x) t h = λ _. refl
  resume-IsAwaited k (expired_waiting_for_policy_delay d n) now t h = h
  resume-IsAwaited k clear now t h = h
  resume-IsAwaited k armed now t h = h
  resume-IsAwaited k expired_orphaned now t h = h

  suspend-IsAwaited :
      (k : Waiting) (w : WakeState D) (now : Now D) (t : Timer D S)
      → IsAwaited k t
      → IsAwaited k (suspend w now t)
  unfolding suspend
  suspend-IsAwaited k (expired_waiting_for_policy_delay d n) now t h =
      λ r. absurd (ground (arith, r))
  suspend-IsAwaited k (expired_waiting_for_power_source n) now t h = h
  suspend-IsAwaited k clear now t h = h
  suspend-IsAwaited k armed now t h = h
  suspend-IsAwaited k expired_orphaned now t h = h

  switch_active-IsAwaited :
      (k : Waiting) (was b : Bool) (now : Now D) (t : Timer D S)
      → IsAwaited k t
      → IsAwaited k (switch_active was b now t)
  unfolding switch_active
  switch_active-IsAwaited k false true now t h = resume-IsAwaited k t.wake_state now t h
  switch_active-IsAwaited k true false now t h = suspend-IsAwaited k t.wake_state now t h
  switch_active-IsAwaited k true true now t h = h
  switch_active-IsAwaited k false false now t h = h

  expire-IsAwaited : (k : Waiting) (t : Timer D S) → IsAwaited k (expire t).1
  unfolding expire ring clear_expiration_time
  expire-IsAwaited k t =
      let u = mark_expired t in
      let p = get_timer_wake_policy u in
      if_branches (λ (r : Bool × Timer D S). IsAwaited k r.1) t.is_active (true, ring u)
        (false, record u { wake_state = waiting p t.wake_state })
        (λ _. stopped-IsAwaited k (ring u) refl)
        (λ _.
          stopped-IsAwaited k (record u { wake_state = waiting p t.wake_state })
            (waiting_stops p t.wake_state))

  check_expired-IsAwaited :
      (k : Waiting) (e : D) (now : Now D) (t : Timer D S) → IsAwaited k (check_expired e now t).1
  unfolding check_expired
  check_expired-IsAwaited k e (err x) t = expire-IsAwaited k t
  check_expired-IsAwaited k e (ok now) t =
      if_branches (λ (r : Bool × Timer D S). IsAwaited k r.1)
        (ltb (dt.unix_timestamp now) (dt.unix_timestamp e)) _ _ (λ _ _. refl)
        (λ _. expire-IsAwaited k t)

  fire-IsAwaited :
      (k : Waiting) (e : Option D) (now : Now D) (t : Timer D S)
      → IsAwaited k t
      → IsAwaited k (fire e now t).1
  unfolding fire
  fire-IsAwaited k none now t h = h
  fire-IsAwaited k (some e) now t h = check_expired-IsAwaited k e now t

  fire_from-IsAwaited :
      (k : Waiting) (w : WakeState D) (now : Now D) (t : Timer D S)
      → IsAwaited k t
      → IsAwaited k (fire_from w now t).1
  unfolding fire_from
  fire_from-IsAwaited k armed now t h = fire-IsAwaited k _ now t h
  fire_from-IsAwaited k (expired_waiting_for_policy_delay d n) now t h = fire-IsAwaited k _ now t h
  fire_from-IsAwaited k clear now t h = h
  fire_from-IsAwaited k expired_orphaned now t h = h
  fire_from-IsAwaited k (expired_waiting_for_power_source n) now t h = h

  perform-IsAwaited :
      (k : Waiting) (c : Call D) (t : Timer D S) → IsAwaited k t → IsAwaited k (perform c t)
  unfolding perform clear_wake_status set_timer_wake_policy set_expiration_time set_active
      process_expired_timer
  perform-IsAwaited k reset_status t h = h
  perform-IsAwaited k (program_policy now p) t h =
      then_store-IsAwaited k p (restart_delay t.wake_state now p t).0
        (restart_delay t.wake_state now p t).1 (restart_delay-IsAwaited k t.wake_state now p t h)
  perform-IsAwaited k (program_expiration now e) t h =
      program-IsAwaited k e now (record t { timer_status = default_status }) h
  perform-IsAwaited k (switch_power now b) t h =
      switch_active-IsAwaited k t.is_active b now (record t { is_active = b }) h
  perform-IsAwaited k (count_down_ended now) t h = fire_from-IsAwaited k t.wake_state now t h

  taken-IsAwaited :
      (o : Option (Option ℕ)) (k : Waiting) (t : Timer D S)
      → o ≡ t.pending
      → IsAwaited k t
      → IsAwaited (take_signal o k t).0 (take_signal o k t).1
  taken-IsAwaited none k t e h = h
  taken-IsAwaited (some (some s)) k t e h = λ _. refl
  taken-IsAwaited (some none) k t e h =
      λ r. absurd (ground (arith, subst (λ o. will_count o k ≡ true) (sym e) (h r)))

  expiry-IsAwaited :
      (seconds : ℕ) (now : Now D) (t : Timer D S)
      → IsAwaited (counting seconds) t
      → let r = after_expiry seconds (process_expired_timer now t) in IsAwaited r.0 r.1
  unfolding process_expired_timer
  expiry-IsAwaited seconds now t h =
      let p = process_expired_timer now t in
      if_branches (λ (r : Waiting × Timer D S). IsAwaited r.0 r.1) p.0 (for_signal, p.1)
        (counting seconds, p.1)
        (λ e.
          stopped-IsAwaited for_signal p.1
            (ap is_running (process_expired_timer-HasRung now t e).state))
        (λ _. fire_from-IsAwaited (counting seconds) t.wake_state now t h)

  task_step-IsAwaited :
      (e : TaskEvent D) (k : Waiting) (t : Timer D S)
      → IsAwaited k t
      → let r = task_step e k t in IsAwaited r.0 r.1
  unfolding task_step
  task_step-IsAwaited (seconds_passed now) (counting s) t h = expiry-IsAwaited s now t h
  task_step-IsAwaited (seconds_passed now) for_signal t h = h
  task_step-IsAwaited signalled k t h = taken-IsAwaited t.pending k t refl h
  task_step-IsAwaited (called c) k t h = perform-IsAwaited k c t h

  -- No wake is lost: after any calls and any steps of its task in any
  -- order, a timer that is armed or in its policy delay has a task that counts its seconds down or a
  -- signal in the slot that makes it, if that was so before, as it is for a timer that is clear.
  pub task_run-IsAwaited :
      (es : List (TaskEvent D)) (k : Waiting) (t : Timer D S)
      → IsAwaited k t
      → let r = task_run es k t in IsAwaited r.0 r.1
  unfolding task_run
  task_run-IsAwaited [] k t h = h
  task_run-IsAwaited (e ∷ es) k t h =
      let r = task_step e k t in task_run-IsAwaited es r.0 r.1 (task_step-IsAwaited e k t h)
