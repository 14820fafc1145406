-- ===== src/PowerButton/Debounce/Noise.antt =====
-- What the debouncer answers to.
use embedded_services.Base.{
  ℕ, zero, suc, ◌+◌, ◌≤◌, ◌<◌, ◌≡◌, refl, subst, ◌∙◌, ap, Bool, true, false, not, Option, none,
  some, List, [], ◌∷◌, arith, if◌then◌else◌,
}
use mathlib.Core.Option.{some-injective}
use embedded_services.PowerButton.Debounce.{
  ActiveState, Debouncer, Reading, is_pressed, round, Debounced, go_on, debounce,
}

-- The pressed ones among the first readings.
unfoldable pub presses : ActiveState → ℕ → List Reading → ℕ
presses a zero rs = 0
presses a (suc n) [] = 0
presses a (suc n) (r ∷ rs) = (if is_pressed a r then 1 else 0) + presses a n rs

pub record IsRound (r : Reading) (d : Debouncer) (x : Option Bool × Debouncer) : Type 0 where
  pub threshold : x.1.threshold ≡ d.threshold
  pub active : x.1.active_state ≡ d.active_state
  pub grows : x.1.integrator ≤ d.integrator + (if is_pressed d.active_state r then 1 else 0)
  pub shrinks : d.integrator ≤ x.1.integrator + (if is_pressed d.active_state r then 0 else 1)
  pub bounded : d.integrator ≤ d.threshold → x.1.integrator ≤ d.threshold
  pub press : x.0 ≡ some true → (d.threshold ≤ x.1.integrator) × (d.pressed ≡ false)
  pub release : x.0 ≡ some false → (x.1.integrator ≡ 0) × (d.pressed ≡ true)
  pub silent : x.0 ≡ none → x.1.pressed ≡ d.pressed
  pub told : (b : Bool) → x.0 ≡ some b → x.1.pressed ≡ b

round_lem : (r : Reading) (d : Debouncer) → IsRound r d (round r d)
unfolding round
round_lem r d = record {
  threshold = ground arith;
  active = ground arith;
  grows = ground arith;
  shrinks = ground arith;
  bounded = λ h. ground (arith, h);
  press = λ h. ground (arith, h);
  release = λ h. ground (arith, h);
  silent = λ h. ground (arith, h);
  told = λ b h. ground (arith, h);
}

-- What an answer of the debouncer tells.
pub record IsAnswer (rs : List Reading) (d : Debouncer) (b : Bool) (x : Debounced) : Type 0 where
  pub changed : b ≡ not d.pressed
  pub kept : x.state.pressed ≡ b
  pub enough : b ≡ true → d.threshold ≤ d.integrator + presses d.active_state x.rounds rs
  pub few : b ≡ false → d.integrator + presses d.active_state x.rounds rs ≤ x.rounds

answered_now :
    (r : Reading) (rs : List Reading) (d : Debouncer) (b : Bool) (u : Debouncer)
    → IsRound r d (some b, u)
    → IsAnswer (r ∷ rs) d b (record { result = some b; rounds = 1; state = u })
unfolding presses
answered_now r rs d true u i =
    let p = i.press refl in
    record {
      changed = rw (p.1) refl;
      kept = i.told true refl;
      enough = λ h. omega (arith, p.0, i.grows);
      few = λ h. absurd (ground (arith, h));
    }
answered_now r rs d false u i =
    let p = i.release refl in
    record {
      changed = rw (p.1) refl;
      kept = i.told false refl;
      enough = λ h. absurd (ground (arith, h));
      few = λ h. ground (arith, p.0, i.shrinks);
    }

answered_later :
    (r : Reading) (rs : List Reading) (d : Debouncer) (b : Bool) (u : Debouncer) (x : Debounced)
    → IsRound r d (none, u)
    → IsAnswer rs u b x
    → IsAnswer (r ∷ rs) d b (record x { rounds = x.rounds + 1 })
unfolding presses
answered_later r rs d b u x i a =
    let e : x.rounds + 1 ≡ suc x.rounds = omega arith in
    let p : u.pressed ≡ d.pressed = i.silent refl in
    let q : presses u.active_state x.rounds rs ≡ presses d.active_state x.rounds rs =
      ap (λ s. presses s x.rounds rs) i.active in
    record {
      changed = a.changed ∙ ap not p;
      kept = a.kept;
      enough = λ h. rw e (ground (arith, a.enough h, i.threshold, i.grows, q));
      few = λ h. rw e (ground (arith, a.few h, i.shrinks, q));
    }

goes_on-IsAnswer :
    (r : Reading) (rs : List Reading) (d : Debouncer) (b : Bool) (o : Option Bool) (u : Debouncer)
    → IsRound r d (o, u)
    → ((debounce rs u).result ≡ some b → IsAnswer rs u b (debounce rs u))
    → (go_on (o, u) (debounce rs)).result ≡ some b
    → IsAnswer (r ∷ rs) d b (go_on (o, u) (debounce rs))
goes_on-IsAnswer r rs d b none u i f h = answered_later r rs d b u (debounce rs u) i (f h)
goes_on-IsAnswer r rs d b (some c) u i f h =
    let e : c ≡ b = some-injective c b h in
    subst (λ x. IsAnswer (r ∷ rs) d x (record { result = some c; rounds = 1; state = u })) e
      (answered_now r rs d c u i)

-- Every answer of the debouncer is a change: it is the opposite of the last one, and it becomes the state.
-- A press is answered only if the integrator and the pressed readings that were taken reach the
-- threshold, and a release only if the released readings that were taken are as many as the integrator.
pub debounce-IsAnswer :
    (rs : List Reading) (d : Debouncer) (b : Bool)
    → (debounce rs d).result ≡ some b
    → IsAnswer rs d b (debounce rs d)
unfolding debounce
debounce-IsAnswer [] d b h = absurd (ground (arith, h))
debounce-IsAnswer (r ∷ rs) d b h =
    let x = round r d in
    goes_on-IsAnswer r rs d b x.0 x.1 (round_lem r d) (λ k. debounce-IsAnswer rs x.1 b k) h

unfoldable pub repeat : ℕ → Reading → List Reading
repeat zero r = []
repeat (suc n) r = r ∷ repeat n r

press_round :
    (r : Reading) (d : Debouncer)
    → is_pressed d.active_state r ≡ true
    → d.pressed ≡ false
    → d.integrator + 1 ≡ d.threshold
    → round r d ≡ (some true, record d { integrator = d.integrator + 1; pressed = true })
unfolding round
press_round r d p q e = ground (arith, p, q, e)

quiet_round :
    (r : Reading) (d : Debouncer)
    → is_pressed d.active_state r ≡ true
    → d.pressed ≡ false
    → d.integrator + 1 < d.threshold
    → round r d ≡ (none, record d { integrator = d.integrator + 1 })
unfolding round
quiet_round r d p q e = ground (arith, p, q, e)

-- A button that is held is answered as pressed with the reading that brings the integrator to the
-- threshold, and not before.
pub debounce-repeat :
    (n : ℕ) (r : Reading) (d : Debouncer)
    → is_pressed d.active_state r ≡ true
    → d.pressed ≡ false
    → d.integrator + suc n ≡ d.threshold
    → ((debounce (repeat (suc n) r) d).result ≡ some true)
      × ((debounce (repeat (suc n) r) d).rounds ≡ suc n)
unfolding debounce repeat
debounce-repeat zero r d p q e = rw (press_round r d p q (omega (arith, e))) (refl, refl)
debounce-repeat (suc n) r d p q e =
    let u : Debouncer = record d { integrator = d.integrator + 1 } in
    let k = debounce-repeat n r u p q (omega (arith, e)) in
    rw (quiet_round r d p q (omega (arith, e))) (k.0, omega (arith, k.1))
