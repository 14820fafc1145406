-- ===== src/TimeAlarm/Timer/History.antt =====
-- A timer from its start on: any sequence of calls, each with what the clock read.
use embedded_services.Base.{
  ℕ, ◌<◌, ◌^◌, ◌≡◌, refl, Bool, Option, none, some, Result, ok, err, arith, ◌==◌, if_branches, List,
  [], ◌∷◌,
}
use embedded_services.TimeAlarm.Interface.{DatetimeClockError, Datetime, Nvram}
use embedded_services.TimeAlarm.Timer.{
  Timer, Now, no_expiration_time, new, clear_wake_status, get_expiration_time,
  get_timer_wake_policy, set_timer_wake_policy, restart_delay, store_policy, set_expiration_time,
  set_active, process_expired_timer, start, and_then,
}
use embedded_services.TimeAlarm.Timer.Consistent.{
  IsConsistent, IsStorable, set_timer_wake_policy-IsConsistent, set_expiration_time-IsConsistent,
  set_expiration_time_ok-IsConsistent, set_active-IsConsistent, process_expired_timer-IsConsistent,
}

-- The calls that change a timer.
pub data Call (D : Type 0) : Type 0 where
  reset_status : Call D
  program_policy : Now D → ℕ → Call D
  program_expiration : Now D → Option D → Call D
  switch_power : Now D → Bool → Call D
  count_down_ended : Now D → Call D

abbrev pub IsStorableCall : {D : Type 0} ⦃dt : Datetime D⦄ → Call D → Type 0
IsStorableCall (program_expiration now e) = IsStorable e
IsStorableCall _ = Unit

abbrev pub AreStorable : {D : Type 0} ⦃dt : Datetime D⦄ → List (Call D) → Type 0
AreStorable [] = Unit
AreStorable (c ∷ cs) = IsStorableCall c × AreStorable cs

module _ {D S : Type 0} ⦃dt : Datetime D⦄ ⦃nv : Nvram S⦄ where
  unfoldable pub perform : Call D → Timer D S → Timer D S
  perform reset_status t = clear_wake_status t
  perform (program_policy now p) t = (set_timer_wake_policy now p t).1
  perform (program_expiration now e) t = (set_expiration_time now e t).1
  perform (switch_power now b) t = set_active now b t
  perform (count_down_ended now) t = (process_expired_timer now t).1

  unfoldable pub perform_all : List (Call D) → Timer D S → Timer D S
  perform_all [] t = t
  perform_all (c ∷ cs) t = perform_all cs (perform c t)

  perform-IsConsistent :
      (c : Call D) (t : Timer D S) → IsStorableCall c → IsConsistent t → IsConsistent (perform c t)
  unfolding perform clear_wake_status
  perform-IsConsistent reset_status t h k = k
  perform-IsConsistent (program_policy now p) t h k = set_timer_wake_policy-IsConsistent now p t k
  perform-IsConsistent (program_expiration now e) t h k =
      set_expiration_time-IsConsistent now e t h k
  perform-IsConsistent (switch_power now b) t h k = set_active-IsConsistent now b t k
  perform-IsConsistent (count_down_ended now) t h k = process_expired_timer-IsConsistent now t k

  perform_all-IsConsistent :
      (cs : List (Call D)) (t : Timer D S)
      → AreStorable cs
      → IsConsistent t
      → IsConsistent (perform_all cs t)
  unfolding perform_all
  perform_all-IsConsistent [] t h k = k
  perform_all-IsConsistent (c ∷ cs) t h k =
      perform_all-IsConsistent cs (perform c t) h.1 (perform-IsConsistent c t h.0 k)

  -- What a start writes back is what it read.
  stored_again :
      (t : Timer D S)
      → nv.read t.expiration_time_storage < 2 ^ 32
      → IsStorable (get_expiration_time t)
  unfolding get_expiration_time
  stored_again t h =
      let n = nv.read t.expiration_time_storage in
      if_branches IsStorable (n == no_expiration_time) none (some (dt.from_unix_timestamp n))
        (λ _. tt) (λ e. rw (dt.unix_timestamp-from n) (ground (arith, h, e)))

  set_active_after :
      (now : Now D) (active : Bool) (r : Result (Unit {0}) DatetimeClockError × Timer D S)
      → (r.0 ≡ ok tt → IsConsistent r.1)
      → (and_then r (λ t. (ok tt, set_active now active t))).0 ≡ ok tt
      → IsConsistent (and_then r (λ t. (ok tt, set_active now active t))).1
  set_active_after now active (ok u, t) f h = set_active-IsConsistent now active t (f refl)
  set_active_after now active (err x, t) f h = absurd (ground arith)

  start-IsConsistent :
      (now1 now2 now3 : Now D) (active : Bool) (e p : S)
      → nv.read e < 2 ^ 32
      → (start now1 now2 now3 active (new e p)).0 ≡ ok tt
      → IsConsistent (start now1 now2 now3 active (new e p)).1
  unfolding start new set_timer_wake_policy restart_delay
  start-IsConsistent now1 now2 now3 active e p b h =
      let t : Timer D S = store_policy (get_timer_wake_policy (new {D = D} e p)) (new e p) in
      set_active_after now3 active (set_expiration_time now2 (get_expiration_time t) t)
        (set_expiration_time_ok-IsConsistent now2 (get_expiration_time t) t (stored_again t b)) h

  -- Once a timer has been started with success on its two storages of a u32 each, its state is clear exactly when no expiration
  -- time is stored, it waits for its power source only while it is inactive, and it waits for its
  -- policy delay only while it is active, after any calls with whatever the clock answers, where no
  -- call programs a date whose seconds are the mark of an empty storage, modulo 2^32.
  pub perform_all-start :
      (now1 now2 now3 : Now D) (active : Bool) (e p : S) (cs : List (Call D))
      → nv.read e < 2 ^ 32
      → (start now1 now2 now3 active (new e p)).0 ≡ ok tt
      → AreStorable cs
      → IsConsistent (perform_all cs (start now1 now2 now3 active (new e p)).1)
  perform_all-start now1 now2 now3 active e p cs b h k =
      perform_all-IsConsistent cs (start now1 now2 now3 active (new e p)).1 k
        (start-IsConsistent now1 now2 now3 active e p b h)
