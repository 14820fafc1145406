-- ===== src/PowerButton/Debounce.antt =====
-- power-button-service/src/debounce.rs. The readings of the pin are a list; a reading may fail. The debouncer
-- waits when the list has ended without an answer.
pub mod Noise
pub mod Tests
use embedded_services.Base.{
  ℕ, ◌+◌, ◌-◌, ◌≤◌, ◌<◌, ◌≡◌, Bool, true, false, not, ◌&&◌, Option, none, some, List, [], ◌∷◌,
  Result, ok, err, ltb, leb, ◌==◌, if◌then◌else◌,
}

pub data ActiveState : Type 0 where
  active_low active_high : ActiveState

pub record Debouncer : Type 0 where
  pub integrator : ℕ
  pub threshold : ℕ
  pub active_state : ActiveState
  pub pressed : Bool

unfoldable pub new : ℕ → ActiveState → Debouncer
new threshold active = record {
  integrator = 0;
  threshold = threshold;
  active_state = active;
  pressed = false;
}

-- Whether the pin is high, or its error.
abbrev pub Reading : Type 0
Reading = Result Bool (Unit {0})

-- `is_low().unwrap_or(false)` or `is_high().unwrap_or(false)`
unfoldable pub is_pressed : ActiveState → Reading → Bool
is_pressed active_low (ok high) = not high
is_pressed active_high (ok high) = high
is_pressed active (err e) = false

unfoldable pub integrate : Bool → Debouncer → Debouncer
integrate true d =
    if ltb d.integrator d.threshold then record d { integrator = d.integrator + 1 } else d
integrate false d = if ltb 0 d.integrator then record d { integrator = d.integrator - 1 } else d

unfoldable pub answer : Debouncer → Option Bool × Debouncer
answer d =
    if leb d.threshold d.integrator && not d.pressed
    then (some true, record d { pressed = true })
    else if d.integrator == 0 && d.pressed
    then (some false, record d { pressed = false })
    else (none, d)

-- One round of the loop.
unfoldable pub round : Reading → Debouncer → Option Bool × Debouncer
unfolding integrate answer
round r d = answer (integrate (is_pressed d.active_state r) d)

-- The answer, if there is one, how many readings it took, and the debouncer after.
pub record Debounced : Type 0 where
  pub result : Option Bool
  pub rounds : ℕ
  pub state : Debouncer

abbrev pub one_more : Debounced → Debounced
one_more x = record x { rounds = x.rounds + 1 }

abbrev pub go_on : Option Bool × Debouncer → (Debouncer → Debounced) → Debounced
go_on (some b, d) f = record { result = some b; rounds = 1; state = d }
go_on (none, d) f = one_more (f d)

unfoldable pub debounce : List Reading → Debouncer → Debounced
debounce [] d = record { result = none; rounds = 0; state = d }
debounce (r ∷ rs) d = go_on (round r d) (debounce rs)
