-- ===== src/TimeAlarm/Timer/Wake.antt =====
-- When a timer wakes the host.
use embedded_services.Base.{
  ◌≡◌, refl, Bool, true, false, Option, none, some, ok, err, arith, ltb, if◌then◌else◌, ◌∙◌,
}
use embedded_services.TimeAlarm.Interface.{never, Datetime, Nvram}
use embedded_services.TimeAlarm.Timer.{
  WakeState, clear, armed, expired_orphaned, expired_waiting_for_policy_delay,
  expired_waiting_for_power_source, Timer, Now, get_expiration_time, get_timer_wake_policy,
  clear_expiration_time, ring, mark_expired, expire, check_expired, fire, fire_from,
  process_expired_timer,
}

-- The states in which an alarm may ring.
abbrev pub is_running : {D : Type 0} → WakeState D → Bool
is_running armed = true
is_running (expired_waiting_for_policy_delay d e) = true
is_running _ = false

swap : (a b : Bool) → (if a then b else false) ≡ (if b then a else false)
swap true true = refl
swap true false = refl
swap false true = refl
swap false false = refl

module _ {D : Type 0} ⦃dt : Datetime D⦄ where
  -- The time has come, as far as the clock can tell.
  abbrev pub has_passed : Now D → D → Bool
  has_passed (ok now) e = if ltb (dt.unix_timestamp now) (dt.unix_timestamp e) then false else true
  has_passed (err x) e = true

  abbrev pub some_passed : Now D → Option D → Bool
  some_passed now none = false
  some_passed now (some e) = has_passed now e

module _ {D S : Type 0} ⦃dt : Datetime D⦄ ⦃nv : Nvram S⦄ where
  -- The timer is programmed, on the power source that it manages, and its time has come.
  abbrev pub is_due : Now D → Timer D S → Bool
  is_due now t =
      if t.is_active
      then if is_running t.wake_state then some_passed now (get_expiration_time t) else false
      else false

  -- The timer is off: it says that it expired and woke the host, and it will not ring again.
  pub record HasRung (t : Timer D S) : Type 0 where
    pub state : t.wake_state ≡ clear
    pub expiration : get_expiration_time t ≡ none
    pub policy : get_timer_wake_policy t ≡ never
    pub expired : t.timer_status.timer_expired ≡ true
    pub woke : t.timer_status.timer_triggered_wake ≡ true
    pub told : t.pending ≡ some none

  expire_wakes : (t : Timer D S) → (expire t).0 ≡ t.is_active
  unfolding expire
  expire_wakes t = ground arith

  check_expired_wakes :
      (e : D) (now : Now D) (t : Timer D S)
      → (check_expired e now t).0 ≡ (if has_passed now e then t.is_active else false)
  unfolding check_expired
  check_expired_wakes e (err x) t = expire_wakes t
  check_expired_wakes e (ok now) t = ground (arith, expire_wakes t)

  fire_wakes :
      (e : Option D) (now : Now D) (t : Timer D S)
      → (fire e now t).0 ≡ (if some_passed now e then t.is_active else false)
  unfolding fire
  fire_wakes none now t = refl
  fire_wakes (some e) now t = check_expired_wakes e now t

  fire_from_wakes :
      (w : WakeState D) (now : Now D) (t : Timer D S)
      → (fire_from w now t).0 ≡ (
          if t.is_active
          then if is_running w then some_passed now (get_expiration_time t) else false
          else false)
  unfolding fire_from
  fire_from_wakes armed now t =
      fire_wakes (get_expiration_time t) now t
      ∙ swap (some_passed now (get_expiration_time t)) t.is_active
  fire_from_wakes (expired_waiting_for_policy_delay d e) now t =
      fire_wakes (get_expiration_time t) now t
      ∙ swap (some_passed now (get_expiration_time t)) t.is_active
  fire_from_wakes clear now t = swap false t.is_active
  fire_from_wakes expired_orphaned now t = swap false t.is_active
  fire_from_wakes (expired_waiting_for_power_source e) now t = swap false t.is_active

  -- The host is woken if and only if the timer is active, runs, and its expiration time has
  -- passed, where a clock that cannot be read counts as having passed it.
  pub process_expired_timer-is_due :
      (now : Now D) (t : Timer D S) → (process_expired_timer now t).0 ≡ is_due now t
  unfolding process_expired_timer
  process_expired_timer-is_due now t = fire_from_wakes t.wake_state now t

  ring-HasRung : (t : Timer D S) → t.timer_status.timer_expired ≡ true → HasRung (ring t)
  unfolding ring get_expiration_time get_timer_wake_policy clear_expiration_time
  ring-HasRung t h = record {
    state = refl;
    expiration = rw (nv.read-write never t.expiration_time_storage) refl;
    policy = nv.read-write never t.wake_policy_storage;
    expired = h;
    woke = refl;
    told = refl;
  }

  -- What has woken the host has rung.
  abbrev Rings : Bool × Timer D S → Type 0
  Rings p = p.0 ≡ true → HasRung p.1

  branches_Rings :
      (b : Bool) (x y : Bool × Timer D S) → Rings x → Rings y → Rings (if b then x else y)
  branches_Rings true x y f g = f
  branches_Rings false x y f g = g

  no_Rings : (t : Timer D S) → Rings (false, t)
  no_Rings t h = absurd (ground arith)

  expire-Rings : (t : Timer D S) → Rings (expire t)
  unfolding expire
  expire-Rings t =
      branches_Rings t.is_active _ _ (λ _. ring-HasRung (mark_expired t) refl) (no_Rings _)

  check_expired-Rings : (e : D) (now : Now D) (t : Timer D S) → Rings (check_expired e now t)
  unfolding check_expired
  check_expired-Rings e (err x) t = expire-Rings t
  check_expired-Rings e (ok now) t =
      branches_Rings (ltb (dt.unix_timestamp now) (dt.unix_timestamp e)) _ _ (no_Rings _)
        (expire-Rings t)

  fire-Rings : (e : Option D) (now : Now D) (t : Timer D S) → Rings (fire e now t)
  unfolding fire
  fire-Rings none now t = no_Rings t
  fire-Rings (some e) now t = check_expired-Rings e now t

  fire_from-Rings : (w : WakeState D) (now : Now D) (t : Timer D S) → Rings (fire_from w now t)
  unfolding fire_from
  fire_from-Rings armed now t = fire-Rings _ now t
  fire_from-Rings (expired_waiting_for_policy_delay d e) now t = fire-Rings _ now t
  fire_from-Rings clear now t = no_Rings t
  fire_from-Rings expired_orphaned now t = no_Rings t
  fire_from-Rings (expired_waiting_for_power_source e) now t = no_Rings t

  -- A timer that woke the host is off: its state is clear, it holds no expiration time, its wake
  -- policy is "never", its status says that it expired and woke the host, and the signal told its
  -- task to stop waiting.
  pub process_expired_timer-HasRung :
      (now : Now D) (t : Timer D S)
      → (process_expired_timer now t).0 ≡ true
      → HasRung (process_expired_timer now t).1
  unfolding process_expired_timer
  process_expired_timer-HasRung now t = fire_from-Rings t.wake_state now t
