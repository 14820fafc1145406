-- ===== src/Keyboard/Scan.antt =====
-- keyboard-service/src/gpio_kb.rs (Runner) and interface.rs: the scan loop. Each round is what the loop reads,
-- the host's power state and the scan of the matrix. The crate `keyberon` is a parameter, and the time
-- between two rounds is left out.
pub mod Rounds
use embedded_services.Base.{
  ℕ, zero, suc, ◌≡◌, Bool, true, false, ◌&&◌, Option, none, some, List, [], ◌∷◌, ◌++◌, length,
  if◌then◌else◌,
}
use embedded_services.Keyboard.Ghost.{Column, has_ghost}

-- A debouncer D and a layout L of keyberon over its events V.
pub record Keyberon (D L V : Type 0) : Type 0 where
  pub events : D → List Column → List V × D
  pub transform : V → V
  pub event : V → L → L
  pub tick : L → L
  pub keycodes : L → List ℕ

-- The matrix is not read where the host has not powered the keyboard on; none is a failed scan.
pub record Round : Type 0 where
  pub powered_on : Bool
  pub scan : Option (List Column)

pub record Keyboard (D L : Type 0) : Type 0 where
  pub debouncer : D
  pub layout : L
  pub deghost : Bool

pub data ScanError : Type 0 where
  roll_over undefined : ScanError

unfoldable pub error_code : ScanError → ℕ
error_code roll_over = 1
error_code undefined = 3

pub data ScanOutcome : Type 0 where
  report : List ℕ → ScanOutcome
  unpowered : ScanOutcome
  scan_failed : ScanError → ScanOutcome

-- KeyboardInputReport::error
unfoldable pub error_report : ℕ → List ℕ
error_report c = 0 ∷ 0 ∷ c ∷ c ∷ c ∷ c ∷ c ∷ c ∷ []

abbrev pub is_empty {ℓ} : {A : Type ℓ} → List A → Bool
is_empty [] = true
is_empty (x ∷ xs) = false

module _ {D L V : Type 0} (keyberon : Keyberon D L V) where
  -- `for event in events`
  unfoldable pub apply_events : List V → L → L
  apply_events [] l = l
  apply_events (e ∷ es) l =
      apply_events es (keyberon.tick (keyberon.event (keyberon.transform e) l))

  -- The state once a scan has gone through the debouncer and the layout.
  abbrev pub debounced : List V × D → Keyboard D L → Keyboard D L
  debounced r kb = record kb { debouncer = r.1; layout = apply_events r.0 kb.layout }

  -- What a round returns from scan_cycle, if anything, and the state after it.
  abbrev pub scanned : Option (List Column) → Keyboard D L → Option ScanOutcome × Keyboard D L
  scanned none kb = (some (scan_failed undefined), kb)
  scanned (some pressed) kb =
      let r = keyberon.events kb.debouncer pressed in
      let after = debounced r kb in
      if kb.deghost && has_ghost pressed
      then (some (scan_failed roll_over), kb)
      else if is_empty r.0
      then (none, after)
      else (some (report (keyberon.keycodes after.layout)), after)

  unfoldable pub scan_round : Round → Keyboard D L → Option ScanOutcome × Keyboard D L
  scan_round r kb = if r.powered_on then scanned r.scan kb else (some unpowered, kb)

  abbrev pub Cycle : Type 0
  Cycle = Option ScanOutcome × Keyboard D L × List Round

  abbrev pub scan_on :
      Option ScanOutcome × Keyboard D L → List Round → (Keyboard D L → Cycle) → Cycle
  scan_on (some o, kb) rest f = (some o, kb, rest)
  scan_on (none, kb) rest f = f kb

  -- The loop: the outcome, the state and the rounds that are left; no outcome where the rounds end.
  unfoldable pub scan_cycle : List Round → Keyboard D L → Cycle
  scan_cycle [] kb = (none, kb, [])
  scan_cycle (r ∷ rs) kb = scan_on (scan_round r kb) rs (scan_cycle rs)

  -- What `run` publishes for an outcome.
  abbrev pub published : Option ScanOutcome → List (List ℕ)
  published (some (report bytes)) = bytes ∷ []
  published (some unpowered) = []
  published (some (scan_failed e)) = error_report (error_code e) ∷ []
  published none = []

  -- `while !is_powered_on()`
  unfoldable pub wait_for_power : List Round → List Round
  wait_for_power [] = []
  wait_for_power (r ∷ rs) = let rest = wait_for_power rs in if r.powered_on then r ∷ rs else rest

  -- `run` over some rounds. Each of its iterations uses up a round at least, so their number is enough.
  unfoldable pub run : ℕ → List Round → Keyboard D L → List (List ℕ)
  run zero rounds kb = []
  run (suc fuel) rounds kb =
      let rounds = wait_for_power rounds in
      let c = scan_cycle rounds kb in
      if is_empty rounds then [] else published c.0 ++ run fuel c.2 c.1
