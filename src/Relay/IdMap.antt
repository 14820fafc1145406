-- ===== src/Relay/IdMap.antt =====
-- embedded-service/src/relay/hid.rs: the map of report identifiers (ReportIdMap) and what builds it
-- (ReportIdMapBuilder).
pub mod Table
pub mod Routes
use embedded_services.Base.{
  ℕ, zero, suc, ◌+◌, ◌-◌, Bool, true, false, Option, none, some, List, [], ◌∷◌, Result, ok, err,
  length, ltb, leb, ◌==◌, if◌then◌else◌, get_elem?,
}
use embedded_services.Base.Exec.{Exec, ◌>>=◌, pure}
use embedded_services.Relay.Item.{HidDescriptorError, too_many_report_ids, get_range?}
use embedded_services.Relay.Blocks.{
  BlockBoundaries, set_elem?, owner_of, bounds, set_start, set_total,
}

pub record ReportIdMap : Type 0 where
  pub remaps : List ℕ
  pub blocks : BlockBoundaries

-- `iter().position(|&id| id == native_id)`
unfoldable pub find_index : ℕ → List ℕ → Option ℕ
find_index native_id [] = none
find_index native_id (id ∷ ids) =
    if id == native_id
    then some 0
    else elim (find_index native_id ids) [ some o ↦ some (suc o) | none ↦ none ]

-- `u8::try_from(n).ok()`
abbrev pub as_u8 : ℕ → Option ℕ
as_u8 n = if ltb n 256 then some n else none

-- The host's identifier of an entry of a block, if it is found there.
abbrev pub host_of : ℕ → Option ℕ → Option ℕ
host_of start (some offset) = as_u8 (start + offset + 1)
host_of start none = none

abbrev pub find_from : ℕ → ℕ → Option (List ℕ) → Option ℕ
find_from native_id start (some ids) = host_of start (find_index native_id ids)
find_from native_id start none = none

unfoldable pub index_of : ReportIdMap → ℕ → Option ℕ
index_of m zero = none
index_of m (suc index) = if ltb index m.blocks.total then some index else none

abbrev pub owned : Option ℕ → Option ℕ → Option (ℕ × ℕ)
owned (some owner) (some native) = some (owner, native)
owned (some owner) none = none
owned none native = none

abbrev pub routed : ReportIdMap → Option ℕ → Option (ℕ × ℕ)
routed m (some index) = owned (owner_of m.blocks index) (get_elem? m.remaps index)
routed m none = none

unfoldable pub route : ReportIdMap → ℕ → Option (ℕ × ℕ)
route m host_id = routed m (index_of m host_id)

abbrev pub looked_up : ReportIdMap → ℕ → Option (ℕ × ℕ) → Option ℕ
looked_up m native_id (some b) = find_from native_id b.0 (get_range? b.0 b.1 m.remaps)
looked_up m native_id none = none

unfoldable pub host_id : ReportIdMap → ℕ → ℕ → Option ℕ
host_id m owner native_id = looked_up m native_id (bounds m.blocks owner)

pub record ReportIdMapBuilder : Type 0 where
  pub remaps : List ℕ
  pub blocks : BlockBoundaries
  pub count : ℕ
  pub input_start : ℕ

abbrev pub Building : Type 0 → Type 0
Building A = Exec ReportIdMapBuilder HidDescriptorError A

abbrev pub on_blocks : Exec BlockBoundaries HidDescriptorError (Unit {0}) → Building (Unit {0})
on_blocks m b = let r = m b.blocks in (r.0, record b { blocks = r.1 })

unfoldable pub begin_input : ℕ → Building (Unit {0})
begin_input input_index b =
    on_blocks (set_start input_index b.count) (record b { input_start = b.count })

unfoldable pub assigned : ReportIdMapBuilder → ℕ → Option ℕ
assigned b native_id = find_from native_id b.input_start (get_range? b.input_start b.count b.remaps)

abbrev pub recorded : Option (List ℕ) → Building ℕ
recorded (some remaps) b = (ok (b.count + 1), record b { remaps = remaps; count = b.count + 1 })
recorded none b = (err too_many_report_ids, b)

-- ReportIdMapBuilder::record
unfoldable pub record_id : ℕ → Building ℕ
record_id native_id b =
    if ltb (b.count + 1) 256
    then recorded (set_elem? b.count native_id b.remaps) b
    else (err too_many_report_ids, b)

abbrev pub known_or_recorded : ℕ → Option ℕ → Building ℕ
known_or_recorded native_id (some id) = pure id
known_or_recorded native_id none = record_id native_id

unfoldable pub assign : ℕ → Building ℕ
assign native_id b = known_or_recorded native_id (assigned b native_id) b

unfoldable pub finish : Building ℕ
finish b = (on_blocks (set_total b.count) >>= λ u. pure b.count) b
