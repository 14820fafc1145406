-- ===== src/TimeAlarm/Timer/Consistent.antt =====
-- What holds of a timer between any two calls.
use embedded_services.Base.{
  ℕ, ◌≡◌, refl, Bool, true, false, Option, none, some, Result, ok, err, arith, ltb, ◌==◌,
  if◌then◌else◌, if_branches, sym, ◌∙◌, ap,
}
use embedded_services.TimeAlarm.Interface.{
  never, default_status, DatetimeClockError, Datetime, Nvram,
}
use embedded_services.TimeAlarm.Timer.{
  WakeState, clear, armed, expired_orphaned, expired_waiting_for_policy_delay,
  expired_waiting_for_power_source, Timer, Now, no_expiration_time, stored, get_timer_wake_policy,
  set_timer_wake_policy, restart_delay, then_store, store_policy, set_expiration_time, program,
  set_active, switch_active, resume, suspend, clear_expiration_time, ring, waiting, mark_expired,
  expire, check_expired, fire, fire_from, process_expired_timer,
}

-- The timer is programmed.
abbrev pub is_set : {D : Type 0} → WakeState D → Bool
is_set clear = false
is_set _ = true

-- Only an inactive timer waits for its power source, only an active one for its delay.
abbrev pub is_placed : {D : Type 0} → WakeState D → Bool → Bool
is_placed (expired_waiting_for_power_source e) true = false
is_placed (expired_waiting_for_policy_delay d e) false = false
is_placed _ _ = true

-- A date whose seconds are not the mark of an empty storage.
abbrev pub IsStorable : {D : Type 0} ⦃dt : Datetime D⦄ → Option D → Type 0
IsStorable none = Unit
IsStorable (some d) = (stored (some d) == no_expiration_time) ≡ false

waiting_fits :
    {D : Type 0} (policy : ℕ) (w : WakeState D)
    → (is_set (waiting policy w) ≡ true) × (is_placed (waiting policy w) false ≡ true)
unfolding waiting
waiting_fits policy w = ground arith

module _ {S : Type 0} ⦃nv : Nvram S⦄ where
  abbrev pub holds_time : S → Bool
  holds_time s = if nv.read s == no_expiration_time then false else true

module _ {D S : Type 0} ⦃nv : Nvram S⦄ where
  pub record Agrees (w : WakeState D) (active : Bool) (s : S) : Type 0 where
    pub programmed : is_set w ≡ holds_time s
    pub placed : is_placed w active ≡ true

  -- The state of a timer is clear exactly when no expiration time is stored, and it waits for its
  -- power source, or for its delay, only while it is inactive, or active.
  abbrev pub IsConsistent : Timer D S → Type 0
  IsConsistent t = Agrees t.wake_state t.is_active t.expiration_time_storage

  restart_delay-IsConsistent :
      (w : WakeState D) (now : Now D) (p : ℕ) (t : Timer D S)
      → w ≡ t.wake_state
      → IsConsistent t
      → IsConsistent (restart_delay w now p t).1
  unfolding restart_delay
  restart_delay-IsConsistent (expired_waiting_for_policy_delay d n) (ok now) p t e c =
      let k : Agrees (expired_waiting_for_policy_delay d n) t.is_active t.expiration_time_storage =
        rw e c in
      record { programmed = k.programmed; placed = k.placed }
  restart_delay-IsConsistent (expired_waiting_for_policy_delay d n) (err x) p t e c = c
  restart_delay-IsConsistent clear now p t e c = c
  restart_delay-IsConsistent armed now p t e c = c
  restart_delay-IsConsistent expired_orphaned now p t e c = c
  restart_delay-IsConsistent (expired_waiting_for_power_source n) now p t e c = c

  then_store-IsConsistent :
      (p : ℕ) (r : Result (Unit {0}) DatetimeClockError) (t : Timer D S)
      → IsConsistent t
      → IsConsistent (then_store p (r, t)).1
  then_store-IsConsistent p (ok u) t c = c
  then_store-IsConsistent p (err x) t c = c

  pub set_timer_wake_policy-IsConsistent :
      (now : Now D) (p : ℕ) (t : Timer D S)
      → IsConsistent t
      → IsConsistent (set_timer_wake_policy now p t).1
  unfolding set_timer_wake_policy
  set_timer_wake_policy-IsConsistent now p t c =
      then_store-IsConsistent p (restart_delay t.wake_state now p t).0
        (restart_delay t.wake_state now p t).1
        (restart_delay-IsConsistent t.wake_state now p t refl c)

module _ {D S : Type 0} ⦃dt : Datetime D⦄ ⦃nv : Nvram S⦄ where
  clear_expiration_time-IsConsistent : (t : Timer D S) → IsConsistent (clear_expiration_time t)
  unfolding clear_expiration_time
  clear_expiration_time-IsConsistent t = record {
    programmed = rw (nv.read-write no_expiration_time t.expiration_time_storage) refl;
    placed = refl;
  }

  program-IsConsistent :
      (now : Now D) (e : Option D) (t : Timer D S)
      → IsStorable e
      → IsConsistent t
      → IsConsistent (program e now t).1
  unfolding program
  program-IsConsistent now none t h c = clear_expiration_time-IsConsistent t
  program-IsConsistent (err x) (some d) t h c = c
  program-IsConsistent (ok now) (some d) t h c = record {
    programmed = rw (nv.read-write (stored (some d)) t.expiration_time_storage, h) refl;
    placed = refl;
  }

  pub set_expiration_time-IsConsistent :
      (now : Now D) (e : Option D) (t : Timer D S)
      → IsStorable e
      → IsConsistent t
      → IsConsistent (set_expiration_time now e t).1
  unfolding set_expiration_time
  set_expiration_time-IsConsistent now e t h c =
      program-IsConsistent now e (record t { timer_status = default_status }) h c

  program_ok-IsConsistent :
      (now : Now D) (e : Option D) (t : Timer D S)
      → IsStorable e
      → (program e now t).0 ≡ ok tt
      → IsConsistent (program e now t).1
  unfolding program
  program_ok-IsConsistent now none t h k = clear_expiration_time-IsConsistent t
  program_ok-IsConsistent (err x) (some d) t h k = absurd (ground arith)
  program_ok-IsConsistent (ok now) (some d) t h k = record {
    programmed = rw (nv.read-write (stored (some d)) t.expiration_time_storage, h) refl;
    placed = refl;
  }

  -- Programming a timer makes it consistent, whatever it was before.
  pub set_expiration_time_ok-IsConsistent :
      (now : Now D) (e : Option D) (t : Timer D S)
      → IsStorable e
      → (set_expiration_time now e t).0 ≡ ok tt
      → IsConsistent (set_expiration_time now e t).1
  unfolding set_expiration_time
  set_expiration_time_ok-IsConsistent now e t h k =
      program_ok-IsConsistent now e (record t { timer_status = default_status }) h k

  resume-IsConsistent :
      (w : WakeState D) (now : Now D) (t : Timer D S)
      → w ≡ t.wake_state
      → t.is_active ≡ true
      → Agrees w false t.expiration_time_storage
      → IsConsistent (resume w now t)
  unfolding resume
  resume-IsConsistent (expired_waiting_for_power_source n) (ok now) t e h c =
      rw h record { programmed = c.programmed; placed = refl }
  resume-IsConsistent (expired_waiting_for_power_source n) (err x) t e h c =
      rw h record { programmed = c.programmed; placed = refl }
  resume-IsConsistent (expired_waiting_for_policy_delay d n) now t e h c =
      absurd (ground (arith, c.placed))
  resume-IsConsistent clear now t e h c =
      rw (sym e, h) record { programmed = c.programmed; placed = refl }
  resume-IsConsistent armed now t e h c =
      rw (sym e, h) record { programmed = c.programmed; placed = refl }
  resume-IsConsistent expired_orphaned now t e h c =
      rw (sym e, h) record { programmed = c.programmed; placed = refl }

  suspend-IsConsistent :
      (w : WakeState D) (now : Now D) (t : Timer D S)
      → w ≡ t.wake_state
      → t.is_active ≡ false
      → Agrees w true t.expiration_time_storage
      → IsConsistent (suspend w now t)
  unfolding suspend
  suspend-IsConsistent (expired_waiting_for_policy_delay d n) now t e h c =
      rw h record { programmed = c.programmed; placed = refl }
  suspend-IsConsistent (expired_waiting_for_power_source n) now t e h c =
      absurd (ground (arith, c.placed))
  suspend-IsConsistent clear now t e h c =
      rw (sym e, h) record { programmed = c.programmed; placed = refl }
  suspend-IsConsistent armed now t e h c =
      rw (sym e, h) record { programmed = c.programmed; placed = refl }
  suspend-IsConsistent expired_orphaned now t e h c =
      rw (sym e, h) record { programmed = c.programmed; placed = refl }

  switch_active-IsConsistent :
      (was b : Bool) (now : Now D) (t : Timer D S)
      → t.is_active ≡ b
      → Agrees t.wake_state was t.expiration_time_storage
      → IsConsistent (switch_active was b now t)
  unfolding switch_active
  switch_active-IsConsistent false true now t h c = resume-IsConsistent t.wake_state now t refl h c
  switch_active-IsConsistent true false now t h c = suspend-IsConsistent t.wake_state now t refl h c
  switch_active-IsConsistent true true now t h c = rw h c
  switch_active-IsConsistent false false now t h c = rw h c

  pub set_active-IsConsistent :
      (now : Now D) (b : Bool) (t : Timer D S) → IsConsistent t → IsConsistent (set_active now b t)
  unfolding set_active
  set_active-IsConsistent now b t c =
      switch_active-IsConsistent t.is_active b now (record t { is_active = b }) refl c

  ring-IsConsistent : (t : Timer D S) → IsConsistent (ring t)
  unfolding ring
  ring-IsConsistent t = clear_expiration_time-IsConsistent (
      store_policy never
        (record t { timer_status = record (t.timer_status) { timer_triggered_wake = true } }))

  expire-IsConsistent :
      (t : Timer D S) → is_set t.wake_state ≡ true → IsConsistent t → IsConsistent (expire t).1
  unfolding expire
  expire-IsConsistent t h c =
      let u = mark_expired t in
      let p = get_timer_wake_policy u in
      let f = waiting_fits p t.wake_state in
      if_branches (λ (r : Bool × Timer D S). IsConsistent r.1) t.is_active (true, ring u)
        (false, record u { wake_state = waiting p t.wake_state }) (λ _. ring-IsConsistent u)
        (λ e. record { programmed = f.0 ∙ sym h ∙ c.programmed; placed = rw e f.1 })

  check_expired-IsConsistent :
      (e : D) (now : Now D) (t : Timer D S)
      → is_set t.wake_state ≡ true
      → IsConsistent t
      → IsConsistent (check_expired e now t).1
  unfolding check_expired
  check_expired-IsConsistent e (err x) t h c = expire-IsConsistent t h c
  check_expired-IsConsistent e (ok now) t h c =
      if_branches (λ (r : Bool × Timer D S). IsConsistent r.1)
        (ltb (dt.unix_timestamp now) (dt.unix_timestamp e)) _ _
        (λ _. record { programmed = sym h ∙ c.programmed; placed = refl })
        (λ _. expire-IsConsistent t h c)

  fire-IsConsistent :
      (e : Option D) (now : Now D) (t : Timer D S)
      → is_set t.wake_state ≡ true
      → IsConsistent t
      → IsConsistent (fire e now t).1
  unfolding fire
  fire-IsConsistent none now t h c = c
  fire-IsConsistent (some e) now t h c = check_expired-IsConsistent e now t h c

  fire_from-IsConsistent :
      (w : WakeState D) (now : Now D) (t : Timer D S)
      → w ≡ t.wake_state
      → IsConsistent t
      → IsConsistent (fire_from w now t).1
  unfolding fire_from
  fire_from-IsConsistent armed now t e c = fire-IsConsistent _ now t (ap is_set (sym e)) c
  fire_from-IsConsistent (expired_waiting_for_policy_delay d n) now t e c =
      fire-IsConsistent _ now t (ap is_set (sym e)) c
  fire_from-IsConsistent clear now t e c = c
  fire_from-IsConsistent expired_orphaned now t e c = c
  fire_from-IsConsistent (expired_waiting_for_power_source n) now t e c = c

  pub process_expired_timer-IsConsistent :
      (now : Now D) (t : Timer D S) → IsConsistent t → IsConsistent (process_expired_timer now t).1
  unfolding process_expired_timer
  process_expired_timer-IsConsistent now t c = fire_from-IsConsistent t.wake_state now t refl c
