-- ===== src/TimeAlarm/Timer.antt =====
-- time-alarm-service/src/timer.rs. A method that reads the clock takes the reading as an argument.
-- `pending` is the slot of the timer's `Signal`, which keeps the last value that was signalled.
pub mod Wake
pub mod Consistent
pub mod History
pub mod Delay
pub mod Loop
pub mod Activity
pub mod Storage
pub mod Orphan
pub mod Awaited
use embedded_services.Base.{
  ℕ, ◌+◌, ◌-◌, ◌%◌, ◌^◌, ◌<◌, ◌≡◌, Bool, true, false, Option, none, some, Result, ok, err, ltb,
  ◌==◌, if◌then◌else◌,
}
use embedded_services.TimeAlarm.Interface.{
  u32_max, never, TimerStatus, default_status, DatetimeClockError, Datetime, Nvram,
}

-- Where in its life the timer is.
pub data WakeState (D : Type 0) : Type 0 where
  clear armed expired_orphaned : WakeState D
  expired_waiting_for_policy_delay : D → ℕ → WakeState D
  expired_waiting_for_power_source : ℕ → WakeState D

pub record Timer (D S : Type 0) : Type 0 where
  pub expiration_time_storage : S
  pub wake_policy_storage : S
  pub wake_state : WakeState D
  pub timer_status : TimerStatus
  pub is_active : Bool
  pub pending : Option (Option ℕ)

-- `Self::now(clock_state)`
abbrev pub Now : Type 0 → Type 0
Now D = Result D DatetimeClockError

abbrev pub no_expiration_time : ℕ
no_expiration_time = u32_max

-- `as u32`
abbrev pub to_u32 : ℕ → ℕ
to_u32 n = n % 2 ^ 32

module _ {D S : Type 0} where
  -- timer_signal.signal(v)
  abbrev pub signal : Option ℕ → Timer D S → Timer D S
  signal v t = record t { pending = some v }

  unfoldable pub new : S → S → Timer D S
  new expiration policy = record {
    expiration_time_storage = expiration;
    wake_policy_storage = policy;
    wake_state = clear;
    timer_status = default_status;
    is_active = false;
    pending = none;
  }

  unfoldable pub get_wake_status : Timer D S → TimerStatus
  get_wake_status t = t.timer_status

  unfoldable pub clear_wake_status : Timer D S → Timer D S
  clear_wake_status t = record t { timer_status = default_status }

module _ {D S : Type 0} ⦃nv : Nvram S⦄ where
  unfoldable pub get_timer_wake_policy : Timer D S → ℕ
  get_timer_wake_policy t = nv.read t.wake_policy_storage

  -- PersistentStorage::set_timer_wake_policy
  abbrev pub store_policy : ℕ → Timer D S → Timer D S
  store_policy p t = record t { wake_policy_storage = nv.write p t.wake_policy_storage }

  restart_delay :
      WakeState D → Now D → ℕ → Timer D S → Result (Unit {0}) DatetimeClockError × Timer D S
  restart_delay (expired_waiting_for_policy_delay d e) (ok now) p t =
      (ok tt, signal (some p) (record t { wake_state = expired_waiting_for_policy_delay now 0 }))
  restart_delay (expired_waiting_for_policy_delay d e) (err x) p t = (err x, t)
  restart_delay w now p t = (ok tt, t)

  abbrev then_store :
      ℕ
      → Result (Unit {0}) DatetimeClockError × Timer D S
      → Result (Unit {0}) DatetimeClockError × Timer D S
  then_store p (ok u, t) = (ok tt, store_policy p t)
  then_store p (err x, t) = (err x, t)

  unfoldable pub set_timer_wake_policy :
      Now D → ℕ → Timer D S → Result (Unit {0}) DatetimeClockError × Timer D S
  unfolding restart_delay
  set_timer_wake_policy now p t = then_store p (restart_delay t.wake_state now p t)

abbrev pub is_waiting_for_delay : {D : Type 0} → WakeState D → Bool
is_waiting_for_delay (expired_waiting_for_policy_delay d e) = true
is_waiting_for_delay _ = false

-- The timer is inactive: what it waits for.
unfoldable pub waiting : {D : Type 0} → ℕ → WakeState D → WakeState D
waiting policy w =
    if policy == never
    then expired_orphaned
    else if is_waiting_for_delay w
    then expired_waiting_for_power_source policy
    else expired_waiting_for_power_source 0

module _ {D : Type 0} ⦃dt : Datetime D⦄ where
  abbrev pub stored : Option D → ℕ
  stored (some d) = to_u32 (dt.unix_timestamp d)
  stored none = no_expiration_time

  -- The seconds spent on the delay when the timer becomes inactive.
  abbrev pub spent : D → ℕ → Now D → ℕ
  spent start before (ok now) =
      (before + to_u32 (dt.unix_timestamp now - dt.unix_timestamp start)) % 2 ^ 32
  spent start before (err x) = u32_max

module _ {D S : Type 0} ⦃dt : Datetime D⦄ ⦃nv : Nvram S⦄ where
  unfoldable pub get_expiration_time : Timer D S → Option D
  get_expiration_time t =
      let secs = nv.read t.expiration_time_storage in
      if secs == no_expiration_time then none else some (dt.from_unix_timestamp secs)

  -- PersistentStorage::set_expiration_time
  abbrev pub store_expiration : Option D → Timer D S → Timer D S
  store_expiration e t = record t {
    expiration_time_storage = nv.write (stored e) t.expiration_time_storage;
  }

  unfoldable pub clear_expiration_time : Timer D S → Timer D S
  clear_expiration_time t = signal none (record (store_expiration none t) { wake_state = clear })

  program : Option D → Now D → Timer D S → Result (Unit {0}) DatetimeClockError × Timer D S
  unfolding clear_expiration_time
  program none now t = (ok tt, clear_expiration_time t)
  program (some d) (err x) t = (err x, t)
  program (some d) (ok now) t = (
    ok tt,
    record (store_expiration (some d)
        (signal (some (to_u32 (dt.unix_timestamp d - dt.unix_timestamp now))) t)) {
          wake_state = armed;
        },
  )

  -- The status is reset before the clock is read.
  unfoldable pub set_expiration_time :
      Now D → Option D → Timer D S → Result (Unit {0}) DatetimeClockError × Timer D S
  unfolding program
  set_expiration_time now e t = program e now (record t { timer_status = default_status })

  -- A timer becomes active: one that waited for its power source starts on what is left of its delay.
  resume : WakeState D → Now D → Timer D S → Timer D S
  unfolding get_timer_wake_policy
  resume (expired_waiting_for_power_source elapsed) (ok now) t =
      signal (some (get_timer_wake_policy t - elapsed))
        (record t { wake_state = expired_waiting_for_policy_delay now elapsed })
  resume (expired_waiting_for_power_source elapsed) (err x) t =
      signal (some 0) (record t { wake_state = armed })
  resume w now t = t

  -- A timer becomes inactive: the seconds that it spent on its delay are kept.
  suspend : WakeState D → Now D → Timer D S → Timer D S
  suspend (expired_waiting_for_policy_delay start before) now t =
      signal none
        (record t { wake_state = expired_waiting_for_power_source (spent start before now) })
  suspend w now t = t

  switch_active : Bool → Bool → Now D → Timer D S → Timer D S
  unfolding resume suspend
  switch_active false true now t = resume t.wake_state now t
  switch_active true false now t = suspend t.wake_state now t
  switch_active _ _ now t = t

  unfoldable pub set_active : Now D → Bool → Timer D S → Timer D S
  unfolding switch_active
  set_active now active t = switch_active t.is_active active now (record t { is_active = active })

  -- The timer wakes the host and is cleared.
  unfoldable pub ring : Timer D S → Timer D S
  unfolding clear_expiration_time
  ring t = clear_expiration_time (
      store_policy never
        (record t { timer_status = record (t.timer_status) { timer_triggered_wake = true } }))

  abbrev pub mark_expired : Timer D S → Timer D S
  mark_expired t = record t { timer_status = record (t.timer_status) { timer_expired = true } }

  -- The expiration time has passed, or the clock could not be read.
  expire : Timer D S → Bool × Timer D S
  unfolding ring waiting get_timer_wake_policy
  expire t =
      let t1 = mark_expired t in
      if t.is_active
      then (true, ring t1)
      else (false, record t1 { wake_state = waiting (get_timer_wake_policy t1) t.wake_state })

  check_expired : D → Now D → Timer D S → Bool × Timer D S
  unfolding expire
  check_expired e (err x) t = expire t
  check_expired e (ok now) t =
      if ltb (dt.unix_timestamp now) (dt.unix_timestamp e)
      then (
        false,
        signal (some (to_u32 (dt.unix_timestamp e - dt.unix_timestamp now)))
            (record t { wake_state = armed }),
      )
      else expire t

  fire : Option D → Now D → Timer D S → Bool × Timer D S
  unfolding check_expired
  fire none now t = (false, t)
  fire (some e) now t = check_expired e now t

  fire_from : WakeState D → Now D → Timer D S → Bool × Timer D S
  unfolding fire get_expiration_time
  fire_from armed now t = fire (get_expiration_time t) now t
  fire_from (expired_waiting_for_policy_delay d e) now t = fire (get_expiration_time t) now t
  fire_from _ now t = (false, t)

  -- Whether a wake is to be signalled to the host, and the timer after.
  unfoldable pub process_expired_timer : Now D → Timer D S → Bool × Timer D S
  unfolding fire_from
  process_expired_timer now t = fire_from t.wake_state now t

  abbrev and_then :
      Result (Unit {0}) DatetimeClockError × Timer D S
      → (Timer D S → Result (Unit {0}) DatetimeClockError × Timer D S)
      → Result (Unit {0}) DatetimeClockError × Timer D S
  and_then (ok u, t) f = f t
  and_then (err x, t) f = (err x, t)

  -- Reprograms the timer from storage; the clock is read up to three times.
  unfoldable pub start :
      Now D → Now D → Now D → Bool → Timer D S → Result (Unit {0}) DatetimeClockError × Timer D S
  start now1 now2 now3 active t =
      and_then (set_timer_wake_policy now1 (get_timer_wake_policy t) t) λ t1.
        and_then (set_expiration_time now2 (get_expiration_time t1) t1)
          λ t2. (ok tt, set_active now3 active t2)
