-- ===== src/Relay/Combine.antt =====
-- embedded-service/src/relay/hid.rs: the combination of report descriptors (ReportIdMap::combine). A buffer
-- of `room` bytes is what has been written to it.
pub mod Outcome
pub mod Builder
pub mod Reports
pub mod Written
pub mod Inputs
pub mod Sequence
pub mod Whole
pub mod Numbers
use embedded_services.Base.{
  ℕ, zero, suc, ◌+◌, ◌*◌, Bool, true, false, ◌&&◌, not, Option, none, some, List, [], ◌∷◌, ◌++◌,
  Result, ok, err, length, ltb, if◌then◌else◌,
}
use embedded_services.Base.Exec.{Exec, ◌>>=◌, ◌>>◌, pure, fail, lift, modify, for_each}
use embedded_services.Relay.Item.{
  HidDescriptorError, unsupported_report_id, output_buffer_too_small, report_id, push, pop,
  global_header, is_report_id, is_collection, DescriptorItem, Yield, items,
}
use embedded_services.Relay.Descriptor.{HidReportDescriptor, new}
use embedded_services.Relay.Blocks.{zeros}
use embedded_services.Relay.IdMap.{
  ReportIdMap, ReportIdMapBuilder, Building, begin_input, assign, record_id, finish,
}

pub record BoundedWriter : Type 0 where
  pub room : ℕ
  pub written : List ℕ

-- The locals of the loops.
pub record Combiner : Type 0 where
  pub writer : BoundedWriter
  pub builder : ReportIdMapBuilder
  pub report_id_inserted : Bool

abbrev pub Combine : Type 0 → Type 0
Combine A = Exec Combiner HidDescriptorError A

-- BoundedWriter::push_slice, and BoundedWriter::push for a single byte.
unfoldable pub push_slice : List ℕ → Combine (Unit {0})
push_slice bytes s =
    let w = s.writer in
    if ltb w.room (length w.written + length bytes)
    then (err (output_buffer_too_small w.room), s)
    else (ok tt, record s { writer = record w { written = w.written ++ bytes } })

abbrev pub push_byte : ℕ → Combine (Unit {0})
push_byte byte = push_slice (byte ∷ [])

abbrev pub on_builder : {A : Type 0} → Building A → Combine A
on_builder m s = let r = m s.builder in (r.0, record s { builder = r.1 })

abbrev pub push_header : ℕ
push_header = global_header push 0

abbrev pub pop_header : ℕ
pop_header = global_header pop 0

abbrev pub report_id_header : ℕ
report_id_header = global_header report_id 1

-- A report identifier is rewritten to the one that the host uses.
unfoldable pub rewrite_id : ℕ → List ℕ → Combine (Unit {0})
rewrite_id header (old_id ∷ []) =
    on_builder (assign old_id) >>= λ new_id. push_byte header >> push_byte new_id
rewrite_id header _ = fail unsupported_report_id

unfoldable pub insert_id : Combine (Unit {0})
insert_id = on_builder (record_id 0) >>= λ inserted_id.
    push_byte report_id_header
    >> push_byte inserted_id
    >> modify λ s. record s { report_id_inserted = true }

-- The identifier of an implicit descriptor goes into its first collection.
unfoldable pub insert_where_due : Bool → ℕ → Combine (Unit {0})
insert_where_due implicit header s =
    if implicit && not s.report_id_inserted && is_collection header then insert_id s else (ok tt, s)

unfoldable pub combine_item : Bool → DescriptorItem → Combine (Unit {0})
combine_item implicit item =
    if is_report_id item.header
    then rewrite_id item.header item.payload
    else push_slice item.raw >> insert_where_due implicit item.header

unfoldable pub combine_yield : Bool → Yield → Combine (Unit {0})
combine_yield implicit y = lift y >>= combine_item implicit

unfoldable pub combine_input : ℕ → HidReportDescriptor → Combine (Unit {0})
combine_input input_index input = on_builder (begin_input input_index) >>= λ u.
    push_byte push_header >>= λ v. modify (λ s. record s { report_id_inserted = false }) >>= λ w.
    for_each (items input.bytes) (combine_yield input.report_ids_implicit) >>= λ x.
    push_byte pop_header

unfoldable pub combine_inputs : ℕ → List HidReportDescriptor → Combine (Unit {0})
combine_inputs input_index [] = pure tt
combine_inputs input_index (input ∷ inputs) =
    combine_input input_index input >>= λ u. combine_inputs (input_index + 1) inputs

abbrev pub max_descriptor_framing_overhead : ℕ
max_descriptor_framing_overhead = 4

abbrev pub sum_len : List HidReportDescriptor → ℕ
sum_len [] = 0
sum_len (input ∷ inputs) = length input.bytes + sum_len inputs

unfoldable pub expected_output_buffer_size : List HidReportDescriptor → ℕ
expected_output_buffer_size inputs =
    sum_len inputs + length inputs * max_descriptor_framing_overhead

abbrev pub combiner : ℕ → ℕ → ℕ → Combiner
combiner report_count device_count room = record {
  writer = record { room = room; written = [] };
  builder = record {
    remaps = zeros report_count;
    blocks = record { starts = zeros device_count; total = 0 };
    count = 0;
    input_start = 0;
  };
  report_id_inserted = false;
}

pub record Combined : Type 0 where
  pub descriptor : HidReportDescriptor
  pub id_map : ReportIdMap

abbrev pub with_map :
    ReportIdMapBuilder
    → Result HidReportDescriptor HidDescriptorError
    → Result Combined HidDescriptorError
with_map b (ok d) =
    ok (record { descriptor = d; id_map = record { remaps = b.remaps; blocks = b.blocks } })
with_map b (err e) = err e

abbrev pub parsed_again :
    Result ℕ HidDescriptorError × Combiner → Result Combined HidDescriptorError
parsed_again (ok n, s) = with_map s.builder (new s.writer.written)
parsed_again (err e, s) = err e

-- ReportIdMap::combine, with the capacity of the map and the size of the buffer.
unfoldable pub combine : ℕ → List HidReportDescriptor → ℕ → Result Combined HidDescriptorError
combine report_count inputs room =
    let expected = expected_output_buffer_size inputs in
    if ltb room expected
    then err (output_buffer_too_small expected)
    else parsed_again (
        (combine_inputs 0 inputs >>= λ u. on_builder finish)
          (combiner report_count (length inputs) room))
