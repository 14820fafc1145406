-- ===== src/Keyboard/Ghost.antt =====
-- keyboard-service/src/gpio_kb.rs (has_ghost). A u128 that packs a column is the list of its bits, of
-- which there are at most 128, as Service::new makes sure.
pub mod Rectangle
use embedded_services.Base.{
  ℕ, zero, suc, ◌+◌, ◌≤◌, ◌<◌, ◌≡◌, Bool, true, false, ◌&&◌, ◌||◌, Option, none, some, List, [],
  ◌∷◌, leb, if◌then◌else◌, get_elem?,
}

abbrev pub Column : Type 0
Column = List Bool

-- The packed bits of a column: bit r is set for the key in row r.
unfoldable pub pack : Column → Column
pack [] = []
pack (key ∷ keys) = (if key then true else false) ∷ pack keys

unfoldable pub count_ones : Column → ℕ
count_ones [] = 0
count_ones (bit ∷ bits) = (if bit then 1 else 0) + count_ones bits

-- `c1 & c2`
unfoldable pub both : Column → Column → Column
both [] ys = []
both (x ∷ xs) [] = []
both (x ∷ xs) (y ∷ ys) = (x && y) ∷ both xs ys

unfoldable pub pack_all : List Column → List Column
pack_all [] = []
pack_all (c ∷ cs) = pack c ∷ pack_all cs

-- The keys that are pressed.
unfoldable pub count : List Column → ℕ
count [] = 0
count (c ∷ cs) = count_ones c + count cs

unfoldable pub shares_two : Column → List Column → Bool
shares_two c1 [] = false
shares_two c1 (c2 ∷ cs) = leb 2 (count_ones (both c1 c2)) || shares_two c1 cs

-- Every column against the columns after it.
unfoldable pub any_pair : List Column → Bool
any_pair [] = false
any_pair (c1 ∷ cs) = shares_two c1 cs || any_pair cs

unfoldable pub has_ghost : List Column → Bool
has_ghost pressed = if leb (count pressed) 2 then false else any_pair (pack_all pressed)
