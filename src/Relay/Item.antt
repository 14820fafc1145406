-- ===== src/Relay/Item.antt =====
-- embedded-service/src/relay/hid.rs: the items of a report descriptor (DescriptorItems). A slice of the
-- descriptor is the list of its bytes.
pub mod Cut
pub mod Partition
use embedded_services.Base.{
  ℕ, zero, suc, ◌+◌, ◌-◌, ◌*◌, ◌/◌, ◌%◌, Bool, true, false, ◌&&◌, ◌||◌, Option, none, some, List,
  [], ◌∷◌, Result, ok, err, length, leb, ltb, ◌==◌, if◌then◌else◌, get_elem?,
}
use embedded_services.Mctp.Encoding.{skip}
use embedded_services.Mctp.Serial.{take}

pub data HidDescriptorError : Type 0 where
  truncated_item unsupported_report_id too_many_report_ids : HidDescriptorError
  output_buffer_too_small : ℕ → HidDescriptorError
  push_pop_stack_overflow unbalanced_pop : HidDescriptorError

pub data HidItemType : Type 0 where
  main global local reserved : HidItemType

pub data GlobalItemTag : Type 0 where
  report_size report_id report_count push pop : GlobalItemTag

abbrev pub global_tag : GlobalItemTag → ℕ
global_tag report_size = 7
global_tag report_id = 8
global_tag report_count = 9
global_tag push = 10
global_tag pop = 11

-- The number of data bytes behind a size field.
unfoldable pub data_bytes : ℕ → ℕ
data_bytes size = if size == 3 then 4 else size

abbrev pub type_of_bits : ℕ → HidItemType
type_of_bits bits =
    if bits == 0 then main else if bits == 1 then global else if bits == 2 then local else reserved

unfoldable pub item_type : ℕ → HidItemType
item_type header = type_of_bits (header / 4 % 4)

unfoldable pub item_tag : ℕ → ℕ
item_tag header = header / 16

abbrev pub long_item_header : ℕ
long_item_header = 254

unfoldable pub is_long_item : ℕ → Bool
is_long_item header = header == long_item_header

unfoldable pub short_item_data_size : ℕ → ℕ
short_item_data_size header = data_bytes (header % 4)

abbrev pub is_global : HidItemType → Bool
is_global global = true
is_global _ = false

abbrev pub is_main : HidItemType → Bool
is_main main = true
is_main _ = false

unfoldable pub is_report_id : ℕ → Bool
is_report_id header = is_global (item_type header) && (item_tag header == global_tag report_id)

abbrev pub collection_item_tag : ℕ
collection_item_tag = 10

unfoldable pub is_collection : ℕ → Bool
is_collection header = is_main (item_type header) && (item_tag header == collection_item_tag)

-- HidReportDescriptorElementHeader::global, with the bits of the size.
unfoldable pub global_header : GlobalItemTag → ℕ → ℕ
global_header tag size = global_tag tag * 16 + 4 + size

pub record DescriptorItem : Type 0 where
  pub header : ℕ
  pub payload : List ℕ
  pub raw : List ℕ

pub record DescriptorItems : Type 0 where
  pub bytes : List ℕ
  pub pos : ℕ
  pub is_done : Bool

abbrev pub Yield : Type 0
Yield = Result DescriptorItem HidDescriptorError

-- `bytes.get(from..until)`
unfoldable pub get_range? : ℕ → ℕ → List ℕ → Option (List ℕ)
get_range? from until bs =
    if leb from until && leb until (length bs)
    then some (take (until - from) (skip from bs))
    else none

abbrev pub stop : Option Yield → DescriptorItems → Option Yield × DescriptorItems
stop r it = (r, record it { is_done = true })

-- The item behind a header, once the lengths of its header and its data are known.
abbrev pub item_from :
    DescriptorItems → ℕ → ℕ → Option (List ℕ) → Option (List ℕ) → Option Yield × DescriptorItems
item_from it header end (some payload) (some raw) =
    (some (ok (record { header = header; payload = payload; raw = raw })), record it { pos = end })
item_from it header end none raw = stop (some (err truncated_item)) it
item_from it header end (some payload) none = stop (some (err truncated_item)) it

unfoldable pub sized_item : DescriptorItems → ℕ → ℕ → ℕ → Option Yield × DescriptorItems
sized_item it header header_len data_size =
    let start = it.pos + header_len in
    let end = start + data_size in
    item_from it header end (get_range? start end it.bytes) (get_range? it.pos end it.bytes)

unfoldable pub long_item : DescriptorItems → ℕ → Option ℕ → Option Yield × DescriptorItems
long_item it header (some data_size) = sized_item it header 3 data_size
long_item it header none = stop (some (err truncated_item)) it

unfoldable pub next_at : DescriptorItems → Option ℕ → Option Yield × DescriptorItems
next_at it none = stop none it
next_at it (some header) =
    if is_long_item header
    then long_item it header (get_elem? it.bytes (it.pos + 1))
    else sized_item it header 1 (short_item_data_size header)

-- DescriptorItems::next
unfoldable pub next : DescriptorItems → Option Yield × DescriptorItems
next it =
    if it.is_done || leb (length it.bytes) it.pos
    then (none, it)
    else next_at it (get_elem? it.bytes it.pos)

abbrev pub yielded : Option Yield → List Yield → List Yield
yielded none rest = []
yielded (some y) rest = y ∷ rest

-- What a loop over the iterator sees. Every round moves the position, so one round more than there are
-- bytes is enough.
unfoldable pub collect : ℕ → DescriptorItems → List Yield
collect zero it = []
collect (suc fuel) it = let r = next it in let rest = collect fuel r.1 in yielded r.0 rest

unfoldable pub items : List ℕ → List Yield
items bytes = collect (suc (length bytes)) (record { bytes = bytes; pos = 0; is_done = false })
