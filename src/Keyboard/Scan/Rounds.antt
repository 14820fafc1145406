-- ===== src/Keyboard/Scan/Rounds.antt =====
-- The nested loops publish round by round.
use embedded_services.Keyboard.Ghost.{Column, has_ghost}
use embedded_services.Base.{
  ◌&&◌, ap, sym, ℕ, zero, suc, ◌≤◌, ◌≡◌, refl, ◌∙◌, Option, none, some, List, [], ◌∷◌, ◌++◌, length,
  arith, if◌then◌else◌, inl, inr, Bool-cases,
}
use embedded_services.Keyboard.Scan.{
  Keyberon, Round, Keyboard, ScanOutcome, is_empty, scan_round, scan_on, scan_cycle, published,
  wait_for_power, run, apply_events, scanned, debounced, report, error_report, error_code,
}

-- The error reports of the HID usage tables: a roll over in every key for a ghost, and an undefined error
-- for a scan that failed.
abbrev roll_over_report : List ℕ
roll_over_report = 0 ∷ 0 ∷ 1 ∷ 1 ∷ 1 ∷ 1 ∷ 1 ∷ 1 ∷ []

abbrev undefined_report : List ℕ
undefined_report = 0 ∷ 0 ∷ 3 ∷ 3 ∷ 3 ∷ 3 ∷ 3 ∷ 3 ∷ []

module _ {D L V : Type 0} (keyberon : Keyberon D L V) where
  -- The layout after some events, each of them transformed and followed by a tick.
  abbrev pub typed : List V → L → L
  typed [] l = l
  typed (e ∷ es) l = typed es (keyberon.tick (keyberon.event (keyberon.transform e) l))

  abbrev keys : List V → L → List (List ℕ)
  keys [] l = []
  keys (e ∷ es) l = keyberon.keycodes l ∷ []

  -- What a round shows: the reports it publishes, and the keyboard after it.
  abbrev shown : Option (List Column) → Keyboard D L → List (List ℕ) × Keyboard D L
  shown none kb = (undefined_report ∷ [], kb)
  shown (some pressed) kb =
      let r = keyberon.events kb.debouncer pressed in
      let l = typed r.0 kb.layout in
      if kb.deghost && has_ghost pressed
      then (roll_over_report ∷ [], kb)
      else (keys r.0 l, record { debouncer = r.1; layout = l; deghost = kb.deghost })

  abbrev pub shown_by : Round → Keyboard D L → List (List ℕ) × Keyboard D L
  shown_by r kb = if r.powered_on then shown r.scan kb else ([], kb)

  -- Every round by itself: what it shows, and the keyboard that it leaves to the rest.
  abbrev pub each_round : List Round → Keyboard D L → List (List ℕ)
  each_round [] kb = []
  each_round (r ∷ rs) kb = let s = shown_by r kb in s.0 ++ each_round rs s.1

  apply_events-typed : (es : List V) (l : L) → apply_events keyberon es l ≡ typed es l
  unfolding apply_events
  apply_events-typed [] l = refl
  apply_events-typed (e ∷ es) l =
      apply_events-typed es (keyberon.tick (keyberon.event (keyberon.transform e) l))

  event_lem :
      (es : List V) (d : D) (kb : Keyboard D L)
      → let after : Keyboard D L = debounced keyberon (es, d) kb in
        let s : Option ScanOutcome × Keyboard D L =
          if is_empty es
          then (none, after)
          else (some (report (keyberon.keycodes after.layout)), after) in
        let l = typed es kb.layout in
        Path
          (List (List ℕ) × Keyboard D L)
          (published keyberon s.0, s.1)
          (keys es l, record { debouncer = d; layout = l; deghost = kb.deghost })
  unfolding apply_events
  event_lem [] d kb = refl
  event_lem (e ∷ es) d kb =
      rw (apply_events-typed es (keyberon.tick (keyberon.event (keyberon.transform e) kb.layout)))
        refl

  -- A round of the code does what is said of it.
  scan_round_lem :
      (r : Round) (kb : Keyboard D L)
      → let s = scan_round keyberon r kb in (published keyberon s.0, s.1) ≡ shown_by r kb
  unfolding scan_round error_report error_code
  scan_round_lem r kb = elim (Bool-cases r.powered_on) [
    | inr e ↦ rw e refl
    | inl e ↦ rw e (go r.scan)
  ]
    where
      go :
          (scan : Option (List Column))
          → let s = scanned keyberon scan kb in (published keyberon s.0, s.1) ≡ shown scan kb
      go none = refl
      go (some pressed) = elim (Bool-cases (kb.deghost && has_ghost pressed)) [
        | inl e ↦ rw e refl
        | inr e ↦ let r = keyberon.events kb.debouncer pressed in rw e (event_lem r.0 r.1 kb)
      ]

  waited :
      (rs : List Round) (kb : Keyboard D L)
      → each_round (wait_for_power keyberon rs) kb ≡ each_round rs kb
  unfolding wait_for_power
  waited [] kb = refl
  waited (r ∷ rs) kb = elim (Bool-cases r.powered_on) [
    | inl e ↦ rw e refl
    | inr e ↦ rw e (waited rs kb)
  ]

  length-wait_for_power : (rs : List Round) → length (wait_for_power keyberon rs) ≤ length rs
  unfolding wait_for_power
  length-wait_for_power [] = omega arith
  length-wait_for_power (r ∷ rs) = elim (Bool-cases r.powered_on) [
    | inl e ↦ rw e (omega arith)
    | inr e ↦ rw e (omega (arith, length-wait_for_power rs))
  ]

  IsCycle : List Round → Keyboard D L → Type 0
  IsCycle rs kb =
      let c = scan_cycle keyberon rs kb in
      (each_round rs kb ≡ published keyberon c.0 ++ each_round c.2 c.1) × (length c.2 ≤ length rs)

  on_cycle :
      (rs : List Round) (s : Option ScanOutcome × Keyboard D L)
      → ((k : Keyboard D L) → IsCycle rs k)
      → let c = scan_on keyberon s rs (scan_cycle keyberon rs) in
        (published keyberon s.0 ++ each_round rs s.1 ≡ published keyberon c.0 ++ each_round c.2 c.1)
        × (length c.2 ≤ length rs)
  unfolding IsCycle
  on_cycle rs (some o, k) h = (refl, omega arith)
  on_cycle rs (none, k) h = h k

  -- A cycle is the rounds up to the first that has an outcome.
  IsCycle-rounds : (rs : List Round) (kb : Keyboard D L) → IsCycle rs kb
  unfolding scan_cycle IsCycle
  IsCycle-rounds [] kb = (refl, omega arith)
  IsCycle-rounds (r ∷ rs) kb =
      let g = on_cycle rs (scan_round keyberon r kb) (IsCycle-rounds rs) in
      let e = scan_round_lem r kb in
      (ap (λ x. x.0 ++ each_round rs x.1) (sym e) ∙ g.0, omega (arith, g.1))

  cycle_shorter :
      (r : Round) (rs : List Round) (kb : Keyboard D L)
      → length (scan_cycle keyberon (r ∷ rs) kb).2 ≤ length rs
  unfolding scan_cycle
  cycle_shorter r rs kb = (on_cycle rs (scan_round keyberon r kb) (IsCycle-rounds rs)).1

  iterated :
      (fuel : ℕ) (rs : List Round) (kb : Keyboard D L)
      → ((rest : List Round) (k : Keyboard D L)
          → length rest ≤ fuel
          → run keyberon fuel rest k ≡ each_round rest k)
      → length rs ≤ suc fuel
      → (if is_empty rs
          then []
          else published keyberon (scan_cycle keyberon rs kb).0
            ++ run keyberon fuel (scan_cycle keyberon rs kb).2 (scan_cycle keyberon rs kb).1)
        ≡ each_round rs kb
  unfolding IsCycle
  iterated fuel [] kb go h = refl
  iterated fuel (r ∷ rs) kb go h =
      let c = scan_cycle keyberon (r ∷ rs) kb in
      let l = cycle_shorter r rs kb in
      rw (go c.2 c.1 (omega (arith, h, l)), (IsCycle-rounds (r ∷ rs) kb).0) refl

  -- The loops publish round by round, in order: nothing for a round without power; the undefined error for
  -- a failed scan and the roll over error for a ghost, where it is looked for, both of which leave the
  -- debouncer and the layout as they were; and otherwise, if the debouncer has events, the keys of the
  -- layout once it has taken them, with a tick after each. As many iterations as there are rounds are enough.
  pub run-each_round :
      (fuel : ℕ) (rs : List Round) (kb : Keyboard D L)
      → length rs ≤ fuel
      → run keyberon fuel rs kb ≡ each_round rs kb
  unfolding run
  run-each_round zero [] kb h = refl
  run-each_round zero (r ∷ rs) kb h = absurd (omega (arith, h))
  run-each_round (suc fuel) rs kb h =
      iterated fuel (wait_for_power keyberon rs) kb (λ rest k l. run-each_round fuel rest k l)
        (omega (arith, h, length-wait_for_power rs))
      ∙ waited rs kb
