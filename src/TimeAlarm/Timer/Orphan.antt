-- ===== src/TimeAlarm/Timer/Orphan.antt =====
-- A timer that expired on the other power source, with the policy never to wake.
use embedded_services.Base.{ℕ, ◌≡◌, refl, Bool, true, false, Option, none, some, ap, List, [], ◌∷◌}
use embedded_services.TimeAlarm.Interface.{Datetime, Nvram}
use embedded_services.TimeAlarm.Timer.{
  expired_orphaned, Timer, Now, clear_wake_status, set_timer_wake_policy, restart_delay, set_active,
  switch_active, resume, suspend, fire_from, process_expired_timer,
}
use embedded_services.TimeAlarm.Timer.History.{
  reset_status, program_policy, program_expiration, switch_power, count_down_ended, perform,
}
use embedded_services.TimeAlarm.Timer.Loop.{
  Waiting, for_signal, counting, TaskEvent, seconds_passed, signalled, called, take_signal,
  after_expiry, task_step, task_run,
}

-- No new time is programmed.
abbrev pub IsQuiet : {D : Type 0} → List (TaskEvent D) → Type 0
IsQuiet [] = Unit
IsQuiet (called (program_expiration now e) ∷ es) = ⊥
IsQuiet (e ∷ es) = IsQuiet es

module _ {D S : Type 0} ⦃dt : Datetime D⦄ ⦃nv : Nvram S⦄ where
  abbrev pub IsOrphaned : Timer D S → Type 0
  IsOrphaned t = t.wake_state ≡ expired_orphaned

  policy-IsOrphaned :
      (now : Now D) (p : ℕ) (t : Timer D S)
      → IsOrphaned t
      → IsOrphaned (set_timer_wake_policy now p t).1
  unfolding set_timer_wake_policy restart_delay
  policy-IsOrphaned now p t h = rw h refl

  switch-IsOrphaned :
      (was b : Bool) (now : Now D) (t : Timer D S)
      → IsOrphaned t
      → IsOrphaned (switch_active was b now t)
  unfolding switch_active resume suspend
  switch-IsOrphaned false true now t h = rw h refl
  switch-IsOrphaned true false now t h = rw h refl
  switch-IsOrphaned true true now t h = h
  switch-IsOrphaned false false now t h = h

  pub process_expired_timer-IsOrphaned :
      (now : Now D) (t : Timer D S) → IsOrphaned t → process_expired_timer now t ≡ (false, t)
  unfolding process_expired_timer fire_from
  process_expired_timer-IsOrphaned now t h = rw h refl

  taken-IsOrphaned :
      (o : Option (Option ℕ)) (k : Waiting) (t : Timer D S)
      → IsOrphaned t
      → IsOrphaned (take_signal o k t).1
  taken-IsOrphaned none k t h = h
  taken-IsOrphaned (some v) k t h = h

  expiry-IsOrphaned :
      (seconds : ℕ) (now : Now D) (t : Timer D S)
      → IsOrphaned t
      → IsOrphaned (after_expiry seconds (process_expired_timer now t)).1
  expiry-IsOrphaned seconds now t h = rw (process_expired_timer-IsOrphaned now t h) h

  -- An orphaned timer stays orphaned and wakes no host, whatever its task does and whatever is
  -- called in any order, as long as no call programs an expiration time.
  pub task_run-IsOrphaned :
      (es : List (TaskEvent D)) (k : Waiting) (t : Timer D S)
      → IsQuiet es
      → IsOrphaned t
      → let u = (task_run es k t).1 in
        IsOrphaned u × ((now : Now D) → (process_expired_timer now u).0 ≡ false)
  unfolding task_run task_step perform clear_wake_status set_active
  task_run-IsOrphaned [] k t q h =
      (h, λ now. ap (λ (r : Bool × Timer D S). r.0) (process_expired_timer-IsOrphaned now t h))
  task_run-IsOrphaned (seconds_passed now ∷ es) for_signal t q h =
      task_run-IsOrphaned es for_signal t q h
  task_run-IsOrphaned (seconds_passed now ∷ es) (counting s) t q h =
      let r = after_expiry s (process_expired_timer now t) in
      task_run-IsOrphaned es r.0 r.1 q (expiry-IsOrphaned s now t h)
  task_run-IsOrphaned (signalled ∷ es) k t q h =
      let r = take_signal t.pending k t in
      task_run-IsOrphaned es r.0 r.1 q (taken-IsOrphaned t.pending k t h)
  task_run-IsOrphaned (called reset_status ∷ es) k t q h = task_run-IsOrphaned es k _ q h
  task_run-IsOrphaned (called (program_policy now p) ∷ es) k t q h =
      task_run-IsOrphaned es k (set_timer_wake_policy now p t).1 q (policy-IsOrphaned now p t h)
  task_run-IsOrphaned (called (program_expiration now e) ∷ es) k t q h = absurd q
  task_run-IsOrphaned (called (switch_power now b) ∷ es) k t q h =
      task_run-IsOrphaned es k (set_active now b t) q
        (switch-IsOrphaned t.is_active b now (record t { is_active = b }) h)
  task_run-IsOrphaned (called (count_down_ended now) ∷ es) k t q h =
      task_run-IsOrphaned es k (process_expired_timer now t).1 q
        (rw (process_expired_timer-IsOrphaned now t h) h)
