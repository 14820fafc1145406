-- ===== src/Relay/Blocks.antt =====
-- embedded-service/src/relay/hid.rs: the blocks of the remapping table (BlockBoundaries).
use embedded_services.Base.{
  ℕ, zero, suc, ◌+◌, Option, none, some, List, [], ◌∷◌, ltb, leb, if◌then◌else◌, get_elem?,
}
use embedded_services.Base.Exec.{Exec}
use embedded_services.Base.{ok, err}
use embedded_services.Relay.Item.{HidDescriptorError, too_many_report_ids}

pub record BlockBoundaries : Type 0 where
  pub starts : List ℕ
  pub total : ℕ

-- `*xs.get_mut(i)? = v`
unfoldable pub set_elem? : ℕ → ℕ → List ℕ → Option (List ℕ)
set_elem? i v [] = none
set_elem? zero v (x ∷ xs) = some (v ∷ xs)
set_elem? (suc i) v (x ∷ xs) = elim (set_elem? i v xs) [ some ys ↦ some (x ∷ ys) | none ↦ none ]

abbrev pub zeros : ℕ → List ℕ
zeros zero = []
zeros (suc n) = 0 ∷ zeros n

-- The place of the last entry that is at most `n`.
unfoldable pub last_at_most : ℕ → List ℕ → Option ℕ
last_at_most n [] = none
last_at_most n (s ∷ ss) = elim (last_at_most n ss) [
  | some o ↦ some (suc o)
  | none ↦ if leb s n then some 0 else none
]

unfoldable pub owner_of : BlockBoundaries → ℕ → Option ℕ
owner_of b report_index = last_at_most report_index b.starts

abbrev pub or_total : ℕ → Option ℕ → ℕ
or_total total (some s) = s
or_total total none = total

abbrev pub bounds_from : BlockBoundaries → ℕ → Option ℕ → Option (ℕ × ℕ)
bounds_from b owner (some start) = some (start, or_total b.total (get_elem? b.starts (owner + 1)))
bounds_from b owner none = none

unfoldable pub bounds : BlockBoundaries → ℕ → Option (ℕ × ℕ)
bounds b owner = bounds_from b owner (get_elem? b.starts owner)

abbrev pub Build : Type 0 → Type 0
Build A = Exec BlockBoundaries HidDescriptorError A

abbrev pub with_starts : Option (List ℕ) → Build (Unit {0})
with_starts (some starts) b = (ok tt, record b { starts = starts })
with_starts none b = (err too_many_report_ids, b)

-- Both failures give the same error and change nothing.
unfoldable pub set_start : ℕ → ℕ → Build (Unit {0})
set_start owner report_index b =
    if ltb report_index 256
    then with_starts (set_elem? owner report_index b.starts) b
    else (err too_many_report_ids, b)

unfoldable pub set_total : ℕ → Build (Unit {0})
set_total total b =
    if ltb total 256 then (ok tt, record b { total = total }) else (err too_many_report_ids, b)
