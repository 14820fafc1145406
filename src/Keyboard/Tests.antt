-- ===== src/Keyboard/Tests.antt =====
-- Examples: a matrix of three columns, and a debouncer that reports every change of the number of keys.
use embedded_services.Base.{
  ℕ, ◌≡◌, ◌↔◌, refl, true, false, some, none, List, [], ◌∷◌, arith, ◌==◌, if◌then◌else◌,
}
use embedded_services.Keyboard.Ghost.{
  Column, count_ones, count, pack, pack_all, both, shares_two, any_pair, has_ghost,
}
use embedded_services.Keyboard.Ghost.Rectangle.{HasRectangle, has_ghost_iff}
use embedded_services.Keyboard.Scan.{
  Keyberon, Round, Keyboard, error_report, error_code, apply_events, scan_round, scan_cycle,
  wait_for_power, run,
}
use embedded_services.Keyboard.Scan.Rounds.{each_round, run-each_round}

abbrev corners : List Column
corners = (true ∷ false ∷ true ∷ []) ∷ (false ∷ true ∷ false ∷ []) ∷ (true ∷ false ∷ true ∷ []) ∷ []

evaluation : Unit {0}
unfolding count_ones count pack pack_all both shares_two any_pair has_ghost error_report error_code
    apply_events scan_round scan_cycle wait_for_power run
evaluation = tt

corners_ghost : has_ghost corners ≡ true
unfolding evaluation
corners_ghost = refl

has_ghost_iff_example : (has_ghost corners ≡ true) ↔ HasRectangle corners
has_ghost_iff_example = has_ghost_iff corners

unfoldable counting : Keyberon ℕ ℕ ℕ
counting = record {
  events = λ d p. let n = count p in (if n == d then [] else n ∷ [], n);
  transform = λ v. v;
  event = λ v l. v;
  tick = λ l. l;
  keycodes = λ l. 0 ∷ 0 ∷ l ∷ 0 ∷ 0 ∷ 0 ∷ 0 ∷ 0 ∷ [];
}

abbrev one_key : List Column
one_key = (true ∷ false ∷ []) ∷ (false ∷ false ∷ []) ∷ []

-- Off, a key, the same key, a ghost, a failed scan, off again.
abbrev rounds : List Round
rounds =
    record { powered_on = false; scan = none }
    ∷ record { powered_on = true; scan = some one_key }
    ∷ record { powered_on = true; scan = some one_key }
    ∷ record { powered_on = true; scan = some corners }
    ∷ record { powered_on = true; scan = none }
    ∷ record { powered_on = false; scan = none }
    ∷ []

abbrev keyboard : Keyboard ℕ ℕ
keyboard = record { debouncer = 0; layout = 0; deghost = true }

three_reports :
    run counting 6 rounds keyboard
    ≡ (0 ∷ 0 ∷ 1 ∷ 0 ∷ 0 ∷ 0 ∷ 0 ∷ 0 ∷ [])
      ∷ (0 ∷ 0 ∷ 1 ∷ 1 ∷ 1 ∷ 1 ∷ 1 ∷ 1 ∷ [])
      ∷ (0 ∷ 0 ∷ 3 ∷ 3 ∷ 3 ∷ 3 ∷ 3 ∷ 3 ∷ [])
      ∷ []
unfolding evaluation counting
three_reports = refl

run-each_round_example : run counting 6 rounds keyboard ≡ each_round counting rounds keyboard
run-each_round_example = run-each_round counting 6 rounds keyboard (omega arith)
