-- ===== src/Relay/Descriptor.antt =====
-- embedded-service/src/relay/hid.rs: what is read off a report descriptor (HidReportDescriptor::new). The
-- array of 256 reports is a function of the identifier.
pub mod Implicit
use embedded_services.Base.{
  ℕ, zero, suc, ◌+◌, ◌-◌, ◌*◌, ◌/◌, ◌^◌, min, max, Bool, true, false, Option, none, some, List, [],
  ◌∷◌, Result, ok, err, length, leb, ltb, ◌==◌, if◌then◌else◌,
}
use embedded_services.Base.Exec.{Exec, ◌>>=◌, ◌>>◌, pure, fail, lift, modify, for_each}
use embedded_services.Relay.Item.{
  HidDescriptorError, truncated_item, unsupported_report_id, push_pop_stack_overflow,
  unbalanced_pop, HidItemType, main, global, local, reserved, report_size, report_id, report_count,
  push, pop, global_tag, item_type, item_tag, is_long_item, DescriptorItem, Yield, items,
}

pub record GlobalItemState : Type 0 where
  pub report_size_bits : ℕ
  pub report_count : ℕ
  pub report_id : ℕ

pub record ReportBits : Type 0 where
  pub input : ℕ
  pub output : ℕ
  pub feature : ℕ

pub record HidReportDescriptor : Type 0 where
  pub bytes : List ℕ
  pub report_ids_implicit : Bool
  pub max_report_sizes : ReportBits

-- The locals of the loop.
pub record Parser : Type 0 where
  pub report_ids_implicit : Bool
  pub reports : ℕ → ReportBits
  pub state : GlobalItemState
  pub stack : List GlobalItemState

abbrev pub no_bits : ReportBits
no_bits = record { input = 0; output = 0; feature = 0 }

abbrev pub parser : Parser
parser = record {
  report_ids_implicit = true;
  reports = λ id. no_bits;
  state = record { report_size_bits = 0; report_count = 0; report_id = 0 };
  stack = [];
}

abbrev pub max_push_pop_stack_depth : ℕ
max_push_pop_stack_depth = 16

abbrev pub max_u32 : ℕ
max_u32 = 2 ^ 32 - 1

unfoldable pub saturating_mul : ℕ → ℕ → ℕ
saturating_mul a b = min (a * b) max_u32

unfoldable pub saturating_add : ℕ → ℕ → ℕ
saturating_add a b = min (a + b) max_u32

abbrev pub le_value : List ℕ → ℕ
le_value [] = 0
le_value (b ∷ bs) = b + 256 * le_value bs

-- DescriptorItem::try_value_as_int
unfoldable pub try_value_as_int : List ℕ → Option ℕ
try_value_as_int [] = none
try_value_as_int (b ∷ bs) = if ltb 4 (length (b ∷ bs)) then none else some (le_value (b ∷ bs))

abbrev pub Step : Type 0
Step = Exec Parser HidDescriptorError (Unit {0})

abbrev pub value_or_truncated : Option ℕ → Result ℕ HidDescriptorError
value_or_truncated (some n) = ok n
value_or_truncated none = err truncated_item

unfoldable pub set_report_size : List ℕ → Step
set_report_size payload = lift (value_or_truncated (try_value_as_int payload)) >>= λ n.
    modify λ p. record p { state = record p.state { report_size_bits = n } }

unfoldable pub set_report_count : List ℕ → Step
set_report_count payload = lift (value_or_truncated (try_value_as_int payload)) >>= λ n.
    modify λ p. record p { state = record p.state { report_count = n } }

unfoldable pub set_report_id : List ℕ → Step
set_report_id (id ∷ []) =
    modify λ p. record p { report_ids_implicit = false; state = record p.state { report_id = id } }
set_report_id _ = fail unsupported_report_id

unfoldable pub push_state : Step
push_state p =
    if leb max_push_pop_stack_depth (length p.stack)
    then (err push_pop_stack_overflow, p)
    else (ok tt, record p { stack = p.state ∷ p.stack })

abbrev pub popped : List GlobalItemState → Step
popped [] p = (err unbalanced_pop, p)
popped (s ∷ ss) p = (ok tt, record p { state = s; stack = ss })

unfoldable pub pop_state : Step
pop_state p = popped p.stack p

unfoldable pub global_item : ℕ → List ℕ → Step
global_item tag payload =
    if tag == global_tag report_size
    then set_report_size payload
    else if tag == global_tag report_count
    then set_report_count payload
    else if tag == global_tag report_id
    then set_report_id payload
    else if tag == global_tag push
    then push_state
    else if tag == global_tag pop
    then pop_state
    else pure tt

-- The field of a report that a main item declares: Input, Output or Feature.
unfoldable pub add_bits : ℕ → ℕ → ReportBits → ReportBits
add_bits tag bits r =
    if tag == 8
    then record r { input = saturating_add r.input bits }
    else if tag == 9
    then record r { output = saturating_add r.output bits }
    else if tag == 11
    then record r { feature = saturating_add r.feature bits }
    else r

unfoldable pub main_item : ℕ → Step
main_item tag p =
    let id = p.state.report_id in
    let bits = saturating_mul p.state.report_size_bits p.state.report_count in
    if ltb id 256
    then (
      ok tt,
      record p {
        reports =
            λ other. if other == id then add_bits tag bits (p.reports id) else p.reports other;
      },
    )
    else (err unsupported_report_id, p)

abbrev pub item_of_type : HidItemType → ℕ → List ℕ → Step
item_of_type global tag payload = global_item tag payload
item_of_type main tag payload = main_item tag
item_of_type local tag payload = pure tt
item_of_type reserved tag payload = pure tt

unfoldable pub on_item : DescriptorItem → Step
on_item item =
    if is_long_item item.header
    then pure tt
    else item_of_type (item_type item.header) (item_tag item.header) item.payload

unfoldable pub on_yield : Yield → Step
on_yield y = lift y >>= on_item

-- The largest sizes among the first reports.
unfoldable pub largest : ℕ → (ℕ → ReportBits) → ReportBits
largest zero reports = no_bits
largest (suc n) reports =
    let rest = largest n reports in
    let r = reports n in
    record {
      input = max rest.input r.input;
      output = max rest.output r.output;
      feature = max rest.feature r.feature;
    }

unfoldable pub bits_to_bytes : ℕ → ℕ
bits_to_bytes bits = (bits + 7) / 8

abbrev pub described :
    List ℕ
    → Result (Unit {0}) HidDescriptorError × Parser
    → Result HidReportDescriptor HidDescriptorError
described bytes (ok u, p) =
    let most = largest 256 p.reports in
    ok (record {
      bytes = bytes;
      report_ids_implicit = p.report_ids_implicit;
      max_report_sizes = record {
        input = bits_to_bytes most.input;
        output = bits_to_bytes most.output;
        feature = bits_to_bytes most.feature;
      };
    })
described bytes (err e, p) = err e

-- HidReportDescriptor::new
unfoldable pub new : List ℕ → Result HidReportDescriptor HidDescriptorError
new bytes = described bytes (for_each (items bytes) on_yield parser)
