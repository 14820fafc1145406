-- ===== src/Relay/Tests.antt =====
-- Runs of the combination of report descriptors.
use embedded_services.Base.{
  Result, ℕ, suc, ◌≤◌, ◌<◌, ◌≡◌, ◌↔◌, ◌⊎◌, refl, none, some, List, [], ◌∷◌, ok, err, true, false,
}
use embedded_services.Base.Exec.{for_each}
use embedded_services.Mctp.Encoding.{skip}
use embedded_services.Mctp.Serial.{take}
use embedded_services.Relay.Item
use embedded_services.Relay.Item.Partition.{IsPartition, items-IsPartition}
use embedded_services.Relay.Descriptor
use embedded_services.Relay.Blocks
use embedded_services.Relay.IdMap
use embedded_services.Relay.IdMap.Table.{IsAt}
use embedded_services.Relay.Combine
use embedded_services.Relay.Combine.Reports.{reports_of}
use embedded_services.Relay.Combine.Written
use embedded_services.Relay.Combine.Whole.{Done, combine_lem}
use embedded_services.Relay.Combine.Numbers.{route_iff, route-host_id}

-- A collection with one input report of eight bits, and one with the reports 7 and 5.
abbrev implicit_bytes : List ℕ
implicit_bytes = 161 ∷ 1 ∷ 117 ∷ 8 ∷ 149 ∷ 1 ∷ 129 ∷ 2 ∷ 192 ∷ []

abbrev explicit_bytes : List ℕ
explicit_bytes = 161 ∷ 1 ∷ 133 ∷ 7 ∷ 117 ∷ 8 ∷ 149 ∷ 3 ∷ 129 ∷ 2 ∷ 133 ∷ 5 ∷ 177 ∷ 2 ∷ 192 ∷ []

abbrev implicit_device : Descriptor.HidReportDescriptor
implicit_device = record {
  bytes = implicit_bytes;
  report_ids_implicit = true;
  max_report_sizes = record { input = 1; output = 0; feature = 0 };
}

abbrev explicit_device : Descriptor.HidReportDescriptor
explicit_device = record {
  bytes = explicit_bytes;
  report_ids_implicit = false;
  max_report_sizes = record { input = 3; output = 0; feature = 3 };
}

abbrev devices : List Descriptor.HidReportDescriptor
devices = implicit_device ∷ explicit_device ∷ []

abbrev combined_bytes : List ℕ
combined_bytes =
    164 ∷ 161 ∷ 1 ∷ 133 ∷ 1 ∷ 117 ∷ 8 ∷ 149 ∷ 1 ∷ 129 ∷ 2 ∷ 192 ∷ 180 ∷ 164 ∷ 161 ∷ 1 ∷ 133 ∷ 2
    ∷ 117 ∷ 8 ∷ 149 ∷ 3 ∷ 129 ∷ 2 ∷ 133 ∷ 3 ∷ 177 ∷ 2 ∷ 192 ∷ 180 ∷ []

abbrev combined : Combine.Combined
combined = record {
  descriptor = record {
    bytes = combined_bytes;
    report_ids_implicit = false;
    max_report_sizes = record { input = 3; output = 0; feature = 3 };
  };
  id_map = record {
    remaps = 0 ∷ 7 ∷ 5 ∷ 0 ∷ [];
    blocks = record { starts = 0 ∷ 1 ∷ []; total = 3 };
  };
}

evaluation : Unit {0}
unfolding for_each skip take Item.data_bytes Item.item_type Item.item_tag Item.is_long_item
    Item.short_item_data_size Item.is_report_id Item.is_collection Item.global_header
    Item.get_range? Item.sized_item Item.long_item Item.next_at Item.next Item.collect Item.items
    Descriptor.saturating_mul Descriptor.saturating_add Descriptor.try_value_as_int
    Descriptor.set_report_size Descriptor.set_report_count Descriptor.set_report_id
    Descriptor.push_state Descriptor.pop_state Descriptor.global_item Descriptor.add_bits
    Descriptor.main_item Descriptor.on_item Descriptor.on_yield Descriptor.largest
    Descriptor.bits_to_bytes Descriptor.new Blocks.set_elem? Blocks.last_at_most Blocks.owner_of
    Blocks.bounds Blocks.set_start Blocks.set_total IdMap.find_index IdMap.index_of IdMap.route
    IdMap.host_id IdMap.begin_input IdMap.assigned IdMap.record_id IdMap.assign IdMap.finish
    Combine.push_slice Combine.rewrite_id Combine.insert_id Combine.insert_where_due
    Combine.combine_item Combine.combine_yield Combine.combine_input Combine.combine_inputs
    Combine.expected_output_buffer_size Combine.combine
evaluation = tt

implicit_device-IsParsed : Descriptor.new implicit_bytes ≡ ok implicit_device
unfolding evaluation
implicit_device-IsParsed = refl

explicit_device-IsParsed : Descriptor.new explicit_bytes ≡ ok explicit_device
unfolding evaluation
explicit_device-IsParsed = refl

two_devices : Combine.combine 4 devices 32 ≡ ok combined
unfolding evaluation
two_devices = refl

-- Its bytes.
writes : combined.descriptor.bytes ≡ Written.combined_bytes 0 devices
unfolding evaluation
writes = refl

-- The map of the combined device.
routes :
    (IdMap.route combined.id_map 3 ≡ some (1, 5))
    × (IdMap.host_id combined.id_map 1 7 ≡ some 2)
    × (IdMap.route combined.id_map 4 ≡ none)
unfolding evaluation
routes = (refl, refl, refl)

-- A size of eight bits and a `Push` without a `Pop`; and one field without a size.
abbrev unmatched_push : Descriptor.HidReportDescriptor
unmatched_push = record {
  bytes = 117 ∷ 8 ∷ 164 ∷ [];
  report_ids_implicit = true;
  max_report_sizes = record { input = 0; output = 0; feature = 0 };
}

abbrev sizeless : Descriptor.HidReportDescriptor
sizeless = record {
  bytes = 149 ∷ 1 ∷ 129 ∷ 2 ∷ [];
  report_ids_implicit = true;
  max_report_sizes = record { input = 0; output = 0; feature = 0 };
}

abbrev sizes :
    Result Combine.Combined Item.HidDescriptorError
    → Result Descriptor.ReportBits Item.HidDescriptorError
sizes (ok c) = ok c.descriptor.max_report_sizes
sizes (err e) = err e

-- Both are accepted, and combined the second one has a field of a byte.
leak :
    (Descriptor.new unmatched_push.bytes ≡ ok unmatched_push)
    × (Descriptor.new sizeless.bytes ≡ ok sizeless)
    × (sizes (Combine.combine 4 (unmatched_push ∷ sizeless ∷ []) 32)
        ≡ ok (record { input = 1; output = 0; feature = 0 }))
unfolding evaluation
leak = (refl, refl, refl)

items-IsPartition_example : IsPartition explicit_bytes (Item.items explicit_bytes)
items-IsPartition_example = items-IsPartition explicit_bytes

combine_lem_example :
    ((32 < Combine.expected_output_buffer_size devices)
      × (Combine.combine 4 devices 32
          ≡ err (Item.output_buffer_too_small (Combine.expected_output_buffer_size devices))))
    ⊎ ((Combine.expected_output_buffer_size devices ≤ 32)
        × Done devices 4 (Combine.combine 4 devices 32))
combine_lem_example =
    combine_lem devices 4 32 (implicit_device-IsParsed, (explicit_device-IsParsed, tt))

route_iff_example : (IdMap.route combined.id_map 3 ≡ some (1, 5)) ↔ (
    (i : ℕ) × (3 ≡ suc i)
    × IsAt (reports_of implicit_device ∷ reports_of explicit_device ∷ []) 1 5 i)
route_iff_example =
    route_iff devices 4 32 combined 1 5 3 (implicit_device-IsParsed, (explicit_device-IsParsed, tt))
      two_devices

route-host_id_example :
    (IdMap.route combined.id_map 3 ≡ some (1, 5)) ↔ (IdMap.host_id combined.id_map 1 5 ≡ some 3)
route-host_id_example =
    route-host_id devices 4 32 combined 1 5 3
      (implicit_device-IsParsed, (explicit_device-IsParsed, tt)) two_devices
