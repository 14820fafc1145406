-- ===== src/TimeAlarm/Timer/Delay.antt =====
-- The delay of a timer that expired while the system ran on the other power source.
use embedded_services.Base.{
  ℕ, ◌+◌, ◌-◌, ◌%◌, ◌^◌, ◌<◌, ◌≡◌, refl, true, false, some, ok, arith, subst, List, [], ◌∷◌,
}
use embedded_services.TimeAlarm.Interface.{Datetime, Nvram}
use embedded_services.TimeAlarm.Timer.{
  expired_waiting_for_policy_delay, expired_waiting_for_power_source, Timer, spent,
  get_timer_wake_policy, set_active, switch_active, resume, suspend,
}

module _ {D : Type 0} ⦃dt : Datetime D⦄ where
  -- The seconds of some stays on the timer's power source.
  unfoldable pub seconds_of : List (D × D) → ℕ
  seconds_of [] = 0
  seconds_of (s ∷ ss) = (dt.unix_timestamp s.1 - dt.unix_timestamp s.0) + seconds_of ss

spent_exact : (n d rest : ℕ) → n + (d + rest) < 2 ^ 32 → (n + d % 2 ^ 32) % 2 ^ 32 ≡ n + d
spent_exact n d rest h = omega arith

module _ {D S : Type 0} ⦃dt : Datetime D⦄ ⦃nv : Nvram S⦄ where
  -- Each stay: the power source comes and goes again.
  unfoldable pub stay_all : List (D × D) → Timer D S → Timer D S
  stay_all [] t = t
  stay_all (s ∷ ss) t = stay_all ss (set_active (ok s.1) false (set_active (ok s.0) true t))

  pub record IsWaiting (n : ℕ) (policy : ℕ) (t : Timer D S) : Type 0 where
    pub state : t.wake_state ≡ expired_waiting_for_power_source n
    pub active : t.is_active ≡ false
    pub kept : get_timer_wake_policy t ≡ policy

  stay-IsWaiting :
      (on off : D) (n policy : ℕ) (t : Timer D S)
      → IsWaiting n policy t
      → IsWaiting
          (spent on n (ok off))
          policy
          (set_active (ok off) false (set_active (ok on) true t))
  unfolding set_active switch_active resume suspend get_timer_wake_policy
  stay-IsWaiting on off n policy t w =
      rw (w.active, w.state) record { state = refl; active = refl; kept = w.kept }

  stay_all-IsWaiting :
      (ss : List (D × D)) (n policy : ℕ) (t : Timer D S)
      → n + seconds_of ss < 2 ^ 32
      → IsWaiting n policy t
      → IsWaiting (n + seconds_of ss) policy (stay_all ss t)
  unfolding stay_all seconds_of
  stay_all-IsWaiting [] n policy t h w =
      let e : n ≡ n + 0 = omega arith in subst (λ m. IsWaiting m policy t) e w
  stay_all-IsWaiting (s ∷ ss) n policy t h w =
      let on = dt.unix_timestamp s.0 in
      let off = dt.unix_timestamp s.1 in
      let e = spent_exact n (off - on) (seconds_of ss) h in
      let u = set_active (ok s.1) false (set_active (ok s.0) true t) in
      let k : IsWaiting (n + (off - on)) policy u =
        subst (λ m. IsWaiting m policy u) e (stay-IsWaiting s.0 s.1 n policy t w) in
      let a : n + (off - on) + seconds_of ss ≡ n + (off - on + seconds_of ss) = omega arith in
      let b : n + (off - on) + seconds_of ss < 2 ^ 32 = rw a h in
      subst (λ m. IsWaiting m policy (stay_all ss u)) a
        (stay_all-IsWaiting ss (n + (off - on)) policy u b k)

  -- A timer that waits for its power source starts, when that comes, on what its policy leaves after
  -- all the seconds that it has already spent on that power source, however often it came and went,
  -- if these are less than 2^32 and the clock answered.
  pub set_active-resumes :
      (ss : List (D × D)) (now : D) (n policy : ℕ) (t : Timer D S)
      → n + seconds_of ss < 2 ^ 32
      → IsWaiting n policy t
      → let u = set_active (ok now) true (stay_all ss t) in
        (u.pending ≡ some (some (policy - (n + seconds_of ss))))
        × (u.wake_state ≡ expired_waiting_for_policy_delay now (n + seconds_of ss))
  unfolding set_active switch_active resume get_timer_wake_policy
  set_active-resumes ss now n policy t h w =
      let k = stay_all-IsWaiting ss n policy t h w in rw (k.active, k.state, k.kept) (refl, refl)
