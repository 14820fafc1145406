-- ===== src/Battery/Response.antt =====
-- AcpiBatteryResponse of battery-service-relay/src/serialization.rs.
pub mod Layout
pub mod Sent
pub mod Roundtrip
use embedded_services.Base.{
  ℕ, ◌+◌, ◌≡◌, List, [], ◌∷◌, ◌++◌, Result, ok, err, length, ltb, if◌then◌else◌,
}
use embedded_services.Base.Exec.{pure}
use embedded_services.Battery.Buffer
use embedded_services.Battery.Buffer.{
  Payload, MessageError, buffer_too_small, and_then, safe_get_bytes, safe_get_dword, dword, Put,
  put_all,
}
use embedded_services.Battery.Message
use embedded_services.Battery.Message.{
  BatteryCmd, code, cmd_of_code, BixFixedStrings, PifFixedStrings, BstReturn, Bps, Bpc, Bmd,
  Accepts, checked,
}

pub data AcpiBatteryResponse : Type 0 where
  get_bix : BixFixedStrings → AcpiBatteryResponse
  get_bst : BstReturn → AcpiBatteryResponse
  get_pif : PifFixedStrings → AcpiBatteryResponse
  get_bps : Bps → AcpiBatteryResponse
  get_bpc : Bpc → AcpiBatteryResponse
  get_bmd : Bmd → AcpiBatteryResponse
  get_psr get_bct get_btm set_bms set_bma get_sta : ℕ → AcpiBatteryResponse
  set_btp set_bpt set_bmc : AcpiBatteryResponse

unfoldable pub command : AcpiBatteryResponse → BatteryCmd
command (get_bix m) = Message.get_bix
command (get_bst m) = Message.get_bst
command (get_psr m) = Message.get_psr
command (get_pif m) = Message.get_pif
command (get_bps m) = Message.get_bps
command set_btp = Message.set_btp
command set_bpt = Message.set_bpt
command (get_bpc m) = Message.get_bpc
command set_bmc = Message.set_bmc
command (get_bmd m) = Message.get_bmd
command (get_bct m) = Message.get_bct
command (get_btm m) = Message.get_btm
command (set_bms m) = Message.set_bms
command (set_bma m) = Message.set_bma
command (get_sta m) = Message.get_sta

abbrev pub discriminant : AcpiBatteryResponse → ℕ
discriminant m = code (command m)

-- The dwords and the strings with their offsets.
abbrev pub bix_row : BixFixedStrings → List (ℕ × List ℕ)
bix_row b =
    (0, dword b.revision)
    ∷ (4, dword b.power_unit)
    ∷ (8, dword b.design_capacity)
    ∷ (12, dword b.last_full_charge_capacity)
    ∷ (16, dword b.battery_technology)
    ∷ (20, dword b.design_voltage)
    ∷ (24, dword b.design_cap_of_warning)
    ∷ (28, dword b.design_cap_of_low)
    ∷ (32, dword b.cycle_count)
    ∷ (36, dword b.measurement_accuracy)
    ∷ (40, dword b.max_sampling_time)
    ∷ (44, dword b.min_sampling_time)
    ∷ (48, dword b.max_averaging_interval)
    ∷ (52, dword b.min_averaging_interval)
    ∷ (56, dword b.battery_capacity_granularity_1)
    ∷ (60, dword b.battery_capacity_granularity_2)
    ∷ (64, b.model_number)
    ∷ (72, b.serial_number)
    ∷ (80, b.battery_type)
    ∷ (88, b.oem_info)
    ∷ (96, dword b.battery_swapping_capability)
    ∷ []

abbrev pub pif_row : PifFixedStrings → List (ℕ × List ℕ)
pif_row p =
    (0, dword p.power_source_state)
    ∷ (4, dword p.max_output_power)
    ∷ (8, dword p.max_input_power)
    ∷ (12, p.model_number)
    ∷ (20, p.serial_number)
    ∷ (28, p.oem_info)
    ∷ []

unfoldable pub bix_to_bytes : BixFixedStrings → Put
bix_to_bytes b buffer =
    if ltb (length buffer) (96 + 4)
    then (err buffer_too_small, buffer)
    else put_all (bix_row b) buffer

unfoldable pub pif_to_bytes : PifFixedStrings → Put
pif_to_bytes p buffer =
    if ltb (length buffer) 36 then (err buffer_too_small, buffer) else put_all (pif_row p) buffer

unfoldable pub serialize : AcpiBatteryResponse → Put
serialize (get_bix b) = bix_to_bytes b
serialize (get_pif p) = pif_to_bytes p
serialize (get_bst m) = put_all (
    (0, dword m.battery_state)
    ∷ (4, dword m.battery_present_rate)
    ∷ (8, dword m.battery_remaining_capacity)
    ∷ (12, dword m.battery_present_voltage)
    ∷ [])
serialize (get_bps m) = put_all (
    (0, dword m.revision)
    ∷ (4, dword m.instantaneous_peak_power_level)
    ∷ (8, dword m.instantaneous_peak_power_period)
    ∷ (12, dword m.sustainable_peak_power_level)
    ∷ (16, dword m.sustainable_peak_power_period)
    ∷ [])
serialize (get_bpc m) = put_all (
    (0, dword m.revision)
    ∷ (4, dword m.power_threshold_support)
    ∷ (8, dword m.max_instantaneous_peak_power_threshold)
    ∷ (12, dword m.max_sustainable_peak_power_threshold)
    ∷ [])
serialize (get_bmd m) = put_all (
    (0, dword m.status_flags)
    ∷ (4, dword m.capability_flags)
    ∷ (8, dword m.recalibrate_count)
    ∷ (12, dword m.quick_recalibrate_time)
    ∷ (16, dword m.slow_recalibrate_time)
    ∷ [])
serialize (get_psr n) = put_all ((0, dword n) ∷ [])
serialize (get_bct n) = put_all ((0, dword n) ∷ [])
serialize (get_btm n) = put_all ((0, dword n) ∷ [])
serialize (set_bms n) = put_all ((0, dword n) ∷ [])
serialize (set_bma n) = put_all ((0, dword n) ∷ [])
serialize (get_sta n) = put_all ((0, dword n) ∷ [])
serialize set_bmc = pure 0
serialize set_bpt = pure 0
serialize set_btp = pure 0

module _ (accepts : Accepts) where
  unfoldable pub bix_from_bytes : List ℕ → Result BixFixedStrings MessageError
  bix_from_bytes buffer = and_then (safe_get_dword buffer 0) λ revision.
      and_then (safe_get_dword buffer 4) λ power_unit.
        and_then (checked accepts Buffer.power_unit power_unit) λ power_unit.
          and_then (safe_get_dword buffer 8) λ design_capacity.
            and_then (safe_get_dword buffer 12) λ last_full_charge_capacity.
              and_then (safe_get_dword buffer 16) λ battery_technology.
                and_then (checked accepts Buffer.battery_technology battery_technology)
                  λ battery_technology. and_then (safe_get_dword buffer 20) λ design_voltage.
                    and_then (safe_get_dword buffer 24) λ design_cap_of_warning.
                      and_then (safe_get_dword buffer 28) λ design_cap_of_low.
                        and_then (safe_get_dword buffer 32) λ cycle_count.
                          and_then (safe_get_dword buffer 36) λ measurement_accuracy.
                            and_then (safe_get_dword buffer 40) λ max_sampling_time.
                              and_then (safe_get_dword buffer 44) λ min_sampling_time.
                                and_then (safe_get_dword buffer 48) λ max_averaging_interval.
                                  and_then (safe_get_dword buffer 52) λ min_averaging_interval.
                                    and_then (safe_get_dword buffer 56)
                                      λ battery_capacity_granularity_1.
                                        and_then (safe_get_dword buffer 60)
                                          λ battery_capacity_granularity_2.
                                            and_then (safe_get_bytes 8 buffer 64) λ model_number.
                                              and_then (safe_get_bytes 8 buffer 72) λ serial_number.
                                                and_then (safe_get_bytes 8 buffer 80)
                                                  λ battery_type.
                                                    and_then (safe_get_bytes 8 buffer 88)
                                                      λ oem_info.
                                                        and_then (safe_get_dword buffer 96)
                                                          λ battery_swapping_capability.
                                                            and_then
                                                            (checked accepts
                                                            Buffer.battery_swapping_capability
                                                            battery_swapping_capability)
                                                            λ battery_swapping_capability.
                                                            ok (record {
                                                            revision = revision;
                                                            power_unit = power_unit;
                                                            design_capacity = design_capacity;
                                                            last_full_charge_capacity =
                                                            last_full_charge_capacity;
                                                            battery_technology = battery_technology;
                                                            design_voltage = design_voltage;
                                                            design_cap_of_warning =
                                                            design_cap_of_warning;
                                                            design_cap_of_low = design_cap_of_low;
                                                            cycle_count = cycle_count;
                                                            measurement_accuracy =
                                                            measurement_accuracy;
                                                            max_sampling_time = max_sampling_time;
                                                            min_sampling_time = min_sampling_time;
                                                            max_averaging_interval =
                                                            max_averaging_interval;
                                                            min_averaging_interval =
                                                            min_averaging_interval;
                                                            battery_capacity_granularity_1 =
                                                            battery_capacity_granularity_1;
                                                            battery_capacity_granularity_2 =
                                                            battery_capacity_granularity_2;
                                                            model_number = model_number;
                                                            serial_number = serial_number;
                                                            battery_type = battery_type;
                                                            oem_info = oem_info;
                                                            battery_swapping_capability =
                                                            battery_swapping_capability;
                                                            })

  unfoldable pub pif_from_bytes : List ℕ → Result PifFixedStrings MessageError
  pif_from_bytes buffer = and_then (safe_get_dword buffer 0) λ power_source_state.
      and_then (checked accepts Buffer.power_source_state power_source_state) λ power_source_state.
        and_then (safe_get_dword buffer 4) λ max_output_power.
          and_then (safe_get_dword buffer 8) λ max_input_power.
            and_then (safe_get_bytes 8 buffer 12) λ model_number.
              and_then (safe_get_bytes 8 buffer 20) λ serial_number.
                and_then (safe_get_bytes 8 buffer 28) λ oem_info. ok (record {
                  power_source_state = power_source_state;
                  max_output_power = max_output_power;
                  max_input_power = max_input_power;
                  model_number = model_number;
                  serial_number = serial_number;
                  oem_info = oem_info;
                })

  -- The message of a command.
  unfoldable pub response_of : BatteryCmd → List ℕ → Result AcpiBatteryResponse MessageError
  response_of Message.get_bix buffer = and_then (bix_from_bytes buffer) λ b. ok (get_bix b)
  response_of Message.get_pif buffer = and_then (pif_from_bytes buffer) λ p. ok (get_pif p)
  response_of Message.get_bst buffer = and_then (safe_get_dword buffer 0) λ battery_state.
      and_then (checked accepts Buffer.battery_state battery_state) λ battery_state.
        and_then (safe_get_dword buffer 4) λ battery_present_rate.
          and_then (safe_get_dword buffer 8) λ battery_remaining_capacity.
            and_then (safe_get_dword buffer 12) λ battery_present_voltage. ok (
              get_bst (record {
                battery_state = battery_state;
                battery_present_rate = battery_present_rate;
                battery_remaining_capacity = battery_remaining_capacity;
                battery_present_voltage = battery_present_voltage;
              }))
  response_of Message.get_bps buffer = and_then (safe_get_dword buffer 0) λ revision.
      and_then (safe_get_dword buffer 4) λ instantaneous_peak_power_level.
        and_then (safe_get_dword buffer 8) λ instantaneous_peak_power_period.
          and_then (safe_get_dword buffer 12) λ sustainable_peak_power_level.
            and_then (safe_get_dword buffer 16) λ sustainable_peak_power_period. ok (
              get_bps (record {
                revision = revision;
                instantaneous_peak_power_level = instantaneous_peak_power_level;
                instantaneous_peak_power_period = instantaneous_peak_power_period;
                sustainable_peak_power_level = sustainable_peak_power_level;
                sustainable_peak_power_period = sustainable_peak_power_period;
              }))
  response_of Message.get_bpc buffer = and_then (safe_get_dword buffer 0) λ revision.
      and_then (safe_get_dword buffer 4) λ power_threshold_support.
        and_then (checked accepts Buffer.power_threshold_support power_threshold_support)
          λ power_threshold_support.
            and_then (safe_get_dword buffer 8) λ max_instantaneous_peak_power_threshold.
              and_then (safe_get_dword buffer 12) λ max_sustainable_peak_power_threshold. ok (
                get_bpc (record {
                  revision = revision;
                  power_threshold_support = power_threshold_support;
                  max_instantaneous_peak_power_threshold = max_instantaneous_peak_power_threshold;
                  max_sustainable_peak_power_threshold = max_sustainable_peak_power_threshold;
                }))
  response_of Message.get_bmd buffer = and_then (safe_get_dword buffer 0) λ status_flags.
      and_then (checked accepts Buffer.bmd_status_flags status_flags) λ status_flags.
        and_then (safe_get_dword buffer 4) λ capability_flags.
          and_then (checked accepts Buffer.bmd_capability_flags capability_flags)
            λ capability_flags. and_then (safe_get_dword buffer 8) λ recalibrate_count.
              and_then (safe_get_dword buffer 12) λ quick_recalibrate_time.
                and_then (safe_get_dword buffer 16) λ slow_recalibrate_time. ok (
                  get_bmd (record {
                    status_flags = status_flags;
                    capability_flags = capability_flags;
                    recalibrate_count = recalibrate_count;
                    quick_recalibrate_time = quick_recalibrate_time;
                    slow_recalibrate_time = slow_recalibrate_time;
                  }))
  response_of Message.get_psr buffer =
      and_then (safe_get_dword buffer 0)
        λ n. and_then (checked accepts Buffer.power_source n) λ n. ok (get_psr n)
  response_of Message.get_sta buffer =
      and_then (safe_get_dword buffer 0)
        λ n. and_then (checked accepts Buffer.sta_flags n) λ n. ok (get_sta n)
  response_of Message.get_bct buffer = and_then (safe_get_dword buffer 0) λ n. ok (get_bct n)
  response_of Message.get_btm buffer = and_then (safe_get_dword buffer 0) λ n. ok (get_btm n)
  response_of Message.set_bms buffer = and_then (safe_get_dword buffer 0) λ n. ok (set_bms n)
  response_of Message.set_bma buffer = and_then (safe_get_dword buffer 0) λ n. ok (set_bma n)
  response_of Message.set_bmc buffer = ok set_bmc
  response_of Message.set_bpt buffer = ok set_bpt
  response_of Message.set_btp buffer = ok set_btp

  unfoldable pub deserialize : ℕ → List ℕ → Result AcpiBatteryResponse MessageError
  deserialize n buffer = and_then (cmd_of_code n) λ c. response_of c buffer
