-- ===== src/TimeAlarm/Timer/Loop.antt =====
-- The task of a timer: Timer::wait_until_wake inside ServiceInner::handle_timer, as steps between the
-- points where it waits. Calls of other tasks come between any two steps.
use embedded_services.Base.{ℕ, Bool, Option, none, some, if◌then◌else◌, List, [], ◌∷◌}
use embedded_services.TimeAlarm.Interface.{Datetime, Nvram}
use embedded_services.TimeAlarm.Timer.{Timer, Now, process_expired_timer}
use embedded_services.TimeAlarm.Timer.History.{Call, perform}

-- Where the task stands: outside the inner loop, or in it with some seconds to wait.
pub data Waiting : Type 0 where
  for_signal : Waiting
  counting : ℕ → Waiting

-- What the task resumes on: the end of its seconds, or a signal.
pub data TaskEvent (D : Type 0) : Type 0 where
  seconds_passed : Now D → TaskEvent D
  signalled : TaskEvent D
  called : Call D → TaskEvent D

-- match wait_duration
abbrev pub next_wait : Option ℕ → Waiting
next_wait (some seconds) = counting seconds
next_wait none = for_signal

module _ {D S : Type 0} where
  -- timer_signal.wait(), which takes the value out of the slot
  abbrev pub take_signal : Option (Option ℕ) → Waiting → Timer D S → Waiting × Timer D S
  take_signal none k t = (k, t)
  take_signal (some v) k t = (next_wait v, record t { pending = none })

module _ {D S : Type 0} ⦃dt : Datetime D⦄ ⦃nv : Nvram S⦄ where
  -- A wake ends the inner loops, and handle_timer starts them anew.
  abbrev pub after_expiry : ℕ → Bool × Timer D S → Waiting × Timer D S
  after_expiry seconds r = if r.0 then (for_signal, r.1) else (counting seconds, r.1)

  unfoldable pub task_step : TaskEvent D → Waiting → Timer D S → Waiting × Timer D S
  task_step (seconds_passed now) (counting seconds) t =
      after_expiry seconds (process_expired_timer now t)
  task_step (seconds_passed now) for_signal t = (for_signal, t)
  task_step signalled k t = take_signal t.pending k t
  task_step (called c) k t = (k, perform c t)

  unfoldable pub task_run : List (TaskEvent D) → Waiting → Timer D S → Waiting × Timer D S
  task_run [] k t = (k, t)
  task_run (e ∷ es) k t = let r = task_step e k t in task_run es r.0 r.1
