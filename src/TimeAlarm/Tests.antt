-- ===== src/TimeAlarm/Tests.antt =====
-- Examples: the time and alarm service with a clock that counts seconds.
use embedded_services.Base.{
  ℕ, ◌+◌, ◌-◌, ◌≡◌, refl, Bool, true, false, none, some, ok, arith, List, [], ◌∷◌,
}
use embedded_services.TimeAlarm.Interface.{
  u32_max, never, ac_power, dc_power, get_other_timer_id, Datetime, Nvram, DatetimeClock,
}
use embedded_services.TimeAlarm.Timer
use embedded_services.TimeAlarm.Timer.{
  WakeState, clear, armed, expired_orphaned, expired_waiting_for_policy_delay,
  expired_waiting_for_power_source, Timer, Now, process_expired_timer, set_expiration_time,
  set_active, set_timer_wake_policy, get_timer_wake_policy,
}
use embedded_services.TimeAlarm.Timer.Wake.{
  is_due, HasRung, process_expired_timer-is_due, process_expired_timer-HasRung,
}
use embedded_services.TimeAlarm.Timer.Consistent.{IsConsistent}
use embedded_services.TimeAlarm.Timer.History.{
  Call, program_policy, program_expiration, switch_power, count_down_ended, perform, perform_all,
  perform_all-start,
}
use embedded_services.TimeAlarm.Timer.Delay.{seconds_of, stay_all, set_active-resumes}
use embedded_services.TimeAlarm.Timer.Loop.{
  for_signal, counting, TaskEvent, seconds_passed, signalled, called, task_step, task_run,
}
use embedded_services.TimeAlarm.Timer.Awaited.{IsAwaited, task_run-IsAwaited}
use embedded_services.TimeAlarm.Zone
use embedded_services.TimeAlarm.Zone.{
  TimeZone, DaylightStatus, ZoneOffset, IsZone, set_data, get_data, get_data-set_data,
}
use embedded_services.TimeAlarm.Service.{
  ServiceInner, AcpiTimestamp, get_timer, on_timer, set_timer_value, get_timer_value, get_real_time,
  set_real_time, get_expired_timer_policy, set_expired_timer_policy, power_source_changed, woken,
  start_timers,
}
use embedded_services.TimeAlarm.Service
use embedded_services.TimeAlarm.Service.Values.{get_timer_value-set}
use embedded_services.Base.Int.{pos}

record Date : Type 0 where
  secs : ℕ

record Cell : Type 0 where
  value : ℕ

record Clock : Type 0 where
  time : Date

abbrev at : ℕ → Date
at n = record { secs = n }

abbrev cell : ℕ → Cell
cell n = record { value = n }

instance abbrev date_instance : Datetime Date
date_instance = record {
  unix_timestamp = λ d. d.secs;
  from_unix_timestamp = at;
  unix_timestamp-from = λ n. refl;
}

instance abbrev cell_instance : Nvram Cell
cell_instance = record { read = λ c. c.value; write = λ n c. cell n; read-write = λ n c. refl }

instance abbrev clock_instance : DatetimeClock Date Clock
clock_instance = record {
  now = λ c. ok c.time;
  set = λ d c. (ok tt, record { time = d });
  now-set = λ d c h. refl;
}

abbrev reads : ℕ → Now Date
reads n = ok (at n)

-- What an evaluation of the service unfolds.
evaluation : Unit {0}
unfolding Timer.new set_expiration_time set_active process_expired_timer set_timer_wake_policy
    get_timer_wake_policy Timer.get_expiration_time Timer.clear_expiration_time Timer.start
    Timer.clear_wake_status perform perform_all task_step task_run stay_all seconds_of get_timer
    get_other_timer_id Service.new start_timers set_expired_timer_policy set_real_time
    set_timer_value get_timer_value Zone.zone_in_range
evaluation = tt

-- A timer that is programmed for the second 100.
abbrev alarm : Bool → ℕ → Timer Date Cell
alarm active policy =
    record (set_expiration_time (reads 10) (some (at 100))
      (record (Timer.new (cell u32_max) (cell policy)) { is_active = active })).1 { pending = none }

process_expired_timer-is_due_example :
    (process_expired_timer (reads 100) (alarm true never)).0 ≡ is_due (reads 100) (alarm true never)
process_expired_timer-is_due_example = process_expired_timer-is_due (reads 100) (alarm true never)

-- It rings at its time, and not before.
rings :
    ((process_expired_timer (reads 100) (alarm true never)).0 ≡ true)
    × ((process_expired_timer (reads 99) (alarm true never)).0 ≡ false)
    × ((process_expired_timer (reads 100) (alarm false never)).1.wake_state ≡ expired_orphaned)
    × ((process_expired_timer (reads 100) (alarm false 30)).1.wake_state
        ≡ expired_waiting_for_power_source 0)
unfolding evaluation
rings = (refl, refl, refl, refl)

process_expired_timer-HasRung_example :
    HasRung (process_expired_timer (reads 100) (alarm true never)).1
unfolding evaluation
process_expired_timer-HasRung_example =
    process_expired_timer-HasRung (reads 100) (alarm true never) refl

-- Programmed, expired on the other source, resumed, and interrupted.
abbrev calls : List (Call Date)
calls =
    program_expiration (reads 10) (some (at 100))
    ∷ program_policy (reads 11) 30
    ∷ switch_power (reads 20) false
    ∷ count_down_ended (reads 100)
    ∷ switch_power (reads 120) true
    ∷ switch_power (reads 125) false
    ∷ []

perform_all-start_example : IsConsistent (
    perform_all calls
      (Timer.start (reads 1) (reads 1) (reads 1) true (Timer.new (cell u32_max) (cell never))).1)
unfolding evaluation
perform_all-start_example =
    perform_all-start (reads 1) (reads 1) (reads 1) true (cell u32_max) (cell never) calls
      (omega arith) refl (refl, (tt, (tt, (tt, (tt, (tt, tt))))))

calls_waiting :
    (perform_all calls
      (Timer.start
        (reads 1)
        (reads 1)
        (reads 1)
        true
        (Timer.new (cell u32_max) (cell never))).1).wake_state
    ≡ expired_waiting_for_power_source 5
unfolding evaluation
calls_waiting = refl

abbrev waiting_timer : Timer Date Cell
waiting_timer = (process_expired_timer (reads 100) (alarm false 30)).1

abbrev stays : List (Date × Date)
stays = (at 120, at 125) ∷ (at 200, at 207) ∷ []

set_active-resumes_example :
    ((set_active (reads 300) true (stay_all stays waiting_timer)).pending
      ≡ some (some (30 - (0 + seconds_of stays))))
    × ((set_active (reads 300) true (stay_all stays waiting_timer)).wake_state
        ≡ expired_waiting_for_policy_delay (at 300) (0 + seconds_of stays))
unfolding evaluation
set_active-resumes_example =
    set_active-resumes stays (at 300) 0 30 waiting_timer (omega arith)
      (record { state = refl; active = refl; kept = refl })

abbrev events : List (TaskEvent Date)
events =
    called (program_expiration (reads 10) (some (at 100)))
    ∷ signalled
    ∷ seconds_passed (reads 99)
    ∷ signalled
    ∷ []

-- It counts the second that was left.
counts : (task_run events for_signal (Timer.new (cell u32_max) (cell never))).0 ≡ counting 1
unfolding evaluation
counts = refl

task_run-IsAwaited_example :
    IsAwaited
      (task_run events for_signal (Timer.new (cell u32_max) (cell never))).0
      (task_run events for_signal (Timer.new (cell u32_max) (cell never))).1
unfolding evaluation
task_run-IsAwaited_example =
    task_run-IsAwaited events for_signal (Timer.new (cell u32_max) (cell never))
      (λ h. absurd (ground (arith, h)))

abbrev orphan : Timer Date Cell
orphan = (process_expired_timer (reads 100) (alarm false never)).1

abbrev quiet : List (TaskEvent Date)
quiet = called (switch_power (reads 120) true) ∷ seconds_passed (reads 130) ∷ []

abbrev fresh : ServiceInner Date Cell Clock
fresh =
    Service.new (record { time = at 1 }) (cell 0) (cell u32_max) (cell never) (cell u32_max)
      (cell never)

abbrev running : ServiceInner Date Cell Clock
running = (start_timers (reads 1) (reads 1) (reads 1) (reads 1) (reads 1) (reads 1) fresh).1

get_timer_value-set_example :
    let r = set_timer_value (reads 10) (reads 10) dc_power 90 running in
    (r.0 ≡ ok tt)
    × (get_timer_value (reads 40) dc_power r.1 ≡ ok (10 + 90 - 40))
    × (get_timer ac_power r.1.timers ≡ get_timer ac_power running.timers)
unfolding evaluation
get_timer_value-set_example =
    get_timer_value-set (at 10) (at 10) (at 40) dc_power 90 running (omega arith)

abbrev stamp : AcpiTimestamp Date
stamp = record {
  datetime = at 77;
  time_zone = Zone.minutes_from_utc (record { minutes_from_utc = pos 120 });
  dst_status = Zone.adjusted;
}

abbrev about_to_ring : ServiceInner Date Cell Clock
about_to_ring = (set_timer_value (reads 10) (reads 10) ac_power 90 running).1
