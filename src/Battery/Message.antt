-- ===== src/Battery/Message.antt =====
-- The commands of battery-service-relay/src/serialization.rs and the data of their messages. A value of a type
-- of the crate `embedded_batteries_async`, a set of flags or an enumeration, is the u32 it is sent as;
-- the parameter says which u32 are such values.
use embedded_services.Base.{ℕ, ◌≡◌, refl, Bool, List, Result, ok, err, if◌then◌else◌, ◌==◌}
use embedded_services.Battery.Buffer.{
  MessageError, Payload, invalid_payload, unknown_message_discriminant,
}

pub data BatteryCmd : Type 0 where
  get_bix get_bst get_psr get_pif get_bps set_btp set_bpt get_bpc : BatteryCmd
  set_bmc get_bmd get_bct get_btm set_bms set_bma get_sta : BatteryCmd

-- The discriminants are 1 to 15, in this order.
unfoldable pub code : BatteryCmd → ℕ
code get_bix = 1
code get_bst = 2
code get_psr = 3
code get_pif = 4
code get_bps = 5
code set_btp = 6
code set_bpt = 7
code get_bpc = 8
code set_bmc = 9
code get_bmd = 10
code get_bct = 11
code get_btm = 12
code set_bms = 13
code set_bma = 14
code get_sta = 15

-- BatteryCmd::try_from
unfoldable pub cmd_of_code : ℕ → Result BatteryCmd MessageError
cmd_of_code n =
    if n == 1
    then ok get_bix
    else if n == 2
    then ok get_bst
    else if n == 3
    then ok get_psr
    else if n == 4
    then ok get_pif
    else if n == 5
    then ok get_bps
    else if n == 6
    then ok set_btp
    else if n == 7
    then ok set_bpt
    else if n == 8
    then ok get_bpc
    else if n == 9
    then ok set_bmc
    else if n == 10
    then ok get_bmd
    else if n == 11
    then ok get_bct
    else if n == 12
    then ok get_btm
    else if n == 13
    then ok set_bms
    else if n == 14
    then ok set_bma
    else if n == 15
    then ok get_sta
    else err (unknown_message_discriminant n)

pub cmd_of_code-code : (c : BatteryCmd) → cmd_of_code (code c) ≡ ok c
unfolding cmd_of_code code
cmd_of_code-code get_bix = refl
cmd_of_code-code get_bst = refl
cmd_of_code-code get_psr = refl
cmd_of_code-code get_pif = refl
cmd_of_code-code get_bps = refl
cmd_of_code-code set_btp = refl
cmd_of_code-code set_bpt = refl
cmd_of_code-code get_bpc = refl
cmd_of_code-code set_bmc = refl
cmd_of_code-code get_bmd = refl
cmd_of_code-code get_bct = refl
cmd_of_code-code get_btm = refl
cmd_of_code-code set_bms = refl
cmd_of_code-code set_bma = refl
cmd_of_code-code get_sta = refl

pub record BixFixedStrings : Type 0 where
  pub revision : ℕ
  pub power_unit : ℕ
  pub design_capacity : ℕ
  pub last_full_charge_capacity : ℕ
  pub battery_technology : ℕ
  pub design_voltage : ℕ
  pub design_cap_of_warning : ℕ
  pub design_cap_of_low : ℕ
  pub cycle_count : ℕ
  pub measurement_accuracy : ℕ
  pub max_sampling_time : ℕ
  pub min_sampling_time : ℕ
  pub max_averaging_interval : ℕ
  pub min_averaging_interval : ℕ
  pub battery_capacity_granularity_1 : ℕ
  pub battery_capacity_granularity_2 : ℕ
  pub model_number : List ℕ
  pub serial_number : List ℕ
  pub battery_type : List ℕ
  pub oem_info : List ℕ
  pub battery_swapping_capability : ℕ

pub record PifFixedStrings : Type 0 where
  pub power_source_state : ℕ
  pub max_output_power : ℕ
  pub max_input_power : ℕ
  pub model_number : List ℕ
  pub serial_number : List ℕ
  pub oem_info : List ℕ

pub record BstReturn : Type 0 where
  pub battery_state : ℕ
  pub battery_present_rate : ℕ
  pub battery_remaining_capacity : ℕ
  pub battery_present_voltage : ℕ

pub record Bps : Type 0 where
  pub revision : ℕ
  pub instantaneous_peak_power_level : ℕ
  pub instantaneous_peak_power_period : ℕ
  pub sustainable_peak_power_level : ℕ
  pub sustainable_peak_power_period : ℕ

pub record Bpc : Type 0 where
  pub revision : ℕ
  pub power_threshold_support : ℕ
  pub max_instantaneous_peak_power_threshold : ℕ
  pub max_sustainable_peak_power_threshold : ℕ

pub record Bmd : Type 0 where
  pub status_flags : ℕ
  pub capability_flags : ℕ
  pub recalibrate_count : ℕ
  pub quick_recalibrate_time : ℕ
  pub slow_recalibrate_time : ℕ

pub record Bpt : Type 0 where
  pub revision : ℕ
  pub threshold_id : ℕ
  pub threshold_value : ℕ

-- The u32 that are values of the types that a payload can hold.
abbrev pub Accepts : Type 0
Accepts = Payload → ℕ → Bool

-- `from_bits` or `try_from`, with the error of a payload that is no value.
abbrev pub checked : Accepts → Payload → ℕ → Result ℕ MessageError
checked accepts p n = if accepts p n then ok n else err (invalid_payload p)
