-- ===== src/Relay/Combine/Written.antt =====
-- What the combination writes for the items of its inputs.
use embedded_services.Base.{ℕ, ◌+◌, Bool, List, [], ◌∷◌, ◌++◌, ok, err, length, if◌then◌else◌}
use embedded_services.Relay.Item.{is_report_id, is_collection, DescriptorItem, Yield, items}
use embedded_services.Relay.Descriptor.{HidReportDescriptor}
use embedded_services.Relay.Combine.Builder.{position, add_id}
use embedded_services.Relay.Combine.Reports.{first, reports_of}

-- An item of a descriptor with identifiers, where `before` reports stand in the inputs before it and `ids` are
-- those declared so far: an identifier is replaced by the number of its report among all of them, from 1.
abbrev pub written_item : ℕ → List ℕ → DescriptorItem → List ℕ
written_item before ids i =
    if is_report_id i.header
    then i.header ∷ (before + position (first i.payload) ids + 1) ∷ []
    else i.raw

abbrev pub written_explicit : ℕ → List ℕ → List Yield → List ℕ
written_explicit before ids [] = []
written_explicit before ids (err e ∷ ys) = []
written_explicit before ids (ok i ∷ ys) =
    written_item before ids i
    ++ written_explicit before (if is_report_id i.header then add_id ids (first i.payload) else ids)
        ys

abbrev pub written_raw : List Yield → List ℕ
written_raw [] = []
written_raw (err e ∷ ys) = []
written_raw (ok i ∷ ys) = i.raw ++ written_raw ys

-- A descriptor without identifiers: a Report ID item (85) with the number of its report is put behind its
-- first collection.
abbrev pub written_implicit : ℕ → List Yield → List ℕ
written_implicit before [] = []
written_implicit before (err e ∷ ys) = []
written_implicit before (ok i ∷ ys) =
    i.raw
    ++ (if is_collection i.header
        then 133 ∷ (before + 1) ∷ written_raw ys
        else written_implicit before ys)

abbrev pub written_body : Bool → ℕ → List Yield → List ℕ
written_body implicit before ys =
    if implicit then written_implicit before ys else written_explicit before [] ys

-- An input stands between a Push (A4) and a Pop (B4).
abbrev pub written_input : ℕ → HidReportDescriptor → List ℕ
written_input before input =
    164 ∷ (written_body input.report_ids_implicit before (items input.bytes) ++ (180 ∷ []))

abbrev pub combined_bytes : ℕ → List HidReportDescriptor → List ℕ
combined_bytes before [] = []
combined_bytes before (input ∷ inputs) =
    written_input before input ++ combined_bytes (before + length (reports_of input)) inputs
