-- ===== src/Battery/Response/Layout.antt =====
-- What a response must be to be sent, and the bytes that it is sent as.
use embedded_services.Base.{
  suc, ◌+◌, ◌*◌, subst, ℕ, ◌^◌, ◌<◌, ◌≡◌, refl, true, List, [], ◌∷◌, ◌++◌, length, arith, All,
}
use embedded_services.Battery.Buffer
use embedded_services.Battery.Buffer.{buffer_too_small, dword, put_all}
use embedded_services.Battery.Buffer.Layout.{IsRow}
use embedded_services.Battery.Message.{BixFixedStrings, Accepts}
use embedded_services.Battery.Response.{
  AcpiBatteryResponse, get_bix, get_bst, get_pif, get_bps, get_bpc, get_bmd, get_psr, get_bct,
  get_btm, set_bms, set_bma, get_sta, set_btp, set_bpt, set_bmc, bix_row, pif_row,
}

abbrev pub IsU32 : ℕ → Type 0
IsU32 n = n < 2 ^ 32

abbrev pub bix_dwords : BixFixedStrings → List ℕ
bix_dwords b =
    b.revision ∷ b.power_unit ∷ b.design_capacity ∷ b.last_full_charge_capacity
    ∷ b.battery_technology ∷ b.design_voltage ∷ b.design_cap_of_warning ∷ b.design_cap_of_low
    ∷ b.cycle_count ∷ b.measurement_accuracy ∷ b.max_sampling_time ∷ b.min_sampling_time
    ∷ b.max_averaging_interval ∷ b.min_averaging_interval ∷ b.battery_capacity_granularity_1
    ∷ b.battery_capacity_granularity_2 ∷ []

-- The row of a response.
abbrev pub response_row : AcpiBatteryResponse → List (ℕ × List ℕ)
response_row (get_bix b) = bix_row b
response_row (get_pif p) = pif_row p
response_row (get_bst m) =
    (0, dword m.battery_state)
    ∷ (4, dword m.battery_present_rate)
    ∷ (8, dword m.battery_remaining_capacity)
    ∷ (12, dword m.battery_present_voltage)
    ∷ []
response_row (get_bps m) =
    (0, dword m.revision)
    ∷ (4, dword m.instantaneous_peak_power_level)
    ∷ (8, dword m.instantaneous_peak_power_period)
    ∷ (12, dword m.sustainable_peak_power_level)
    ∷ (16, dword m.sustainable_peak_power_period)
    ∷ []
response_row (get_bpc m) =
    (0, dword m.revision)
    ∷ (4, dword m.power_threshold_support)
    ∷ (8, dword m.max_instantaneous_peak_power_threshold)
    ∷ (12, dword m.max_sustainable_peak_power_threshold)
    ∷ []
response_row (get_bmd m) =
    (0, dword m.status_flags)
    ∷ (4, dword m.capability_flags)
    ∷ (8, dword m.recalibrate_count)
    ∷ (12, dword m.quick_recalibrate_time)
    ∷ (16, dword m.slow_recalibrate_time)
    ∷ []
response_row (get_psr n) = (0, dword n) ∷ []
response_row (get_bct n) = (0, dword n) ∷ []
response_row (get_btm n) = (0, dword n) ∷ []
response_row (set_bms n) = (0, dword n) ∷ []
response_row (set_bma n) = (0, dword n) ∷ []
response_row (get_sta n) = (0, dword n) ∷ []
response_row set_btp = []
response_row set_bpt = []
response_row set_bmc = []

-- Numbers that stand one behind the other.
abbrev dword_row : ℕ → List ℕ → List (ℕ × List ℕ)
dword_row i [] = []
dword_row i (n ∷ ns) = (i, dword n) ∷ dword_row (i + 4) ns

dword_row-IsRow :
    (ns : List ℕ) (i : ℕ) (rest : List (ℕ × List ℕ))
    → IsRow (i + length ns * 4) rest
    → IsRow i (dword_row i ns ++ rest)
dword_row-IsRow [] i rest h = let e : i + 0 * 4 ≡ i = omega arith in subst (λ k. IsRow k rest) e h
dword_row-IsRow (n ∷ ns) i rest h =
    let e : i + suc (length ns) * 4 ≡ i + 4 + length ns * 4 = omega arith in
    (refl, dword_row-IsRow ns (i + 4) rest (subst (λ k. IsRow k rest) e h))

module _ (accepts : Accepts) where
  -- Numbers are u32, strings have 8 bytes, and every flag and enumeration is a value of its type.
  abbrev pub IsResponse : AcpiBatteryResponse → Type 0
  IsResponse (get_bix b) =
      All IsU32 (bix_dwords b)
      × IsU32 b.battery_swapping_capability
      × (length b.model_number ≡ 8)
      × (length b.serial_number ≡ 8)
      × (length b.battery_type ≡ 8)
      × (length b.oem_info ≡ 8)
      × (accepts Buffer.power_unit b.power_unit ≡ true)
      × (accepts Buffer.battery_technology b.battery_technology ≡ true)
      × (accepts Buffer.battery_swapping_capability b.battery_swapping_capability ≡ true)
  IsResponse (get_pif p) =
      IsU32 p.power_source_state
      × IsU32 p.max_output_power
      × IsU32 p.max_input_power
      × (length p.model_number ≡ 8)
      × (length p.serial_number ≡ 8)
      × (length p.oem_info ≡ 8)
      × (accepts Buffer.power_source_state p.power_source_state ≡ true)
  IsResponse (get_bst m) =
      IsU32 m.battery_state
      × IsU32 m.battery_present_rate
      × IsU32 m.battery_remaining_capacity
      × IsU32 m.battery_present_voltage
      × (accepts Buffer.battery_state m.battery_state ≡ true)
  IsResponse (get_bps m) =
      IsU32 m.revision
      × IsU32 m.instantaneous_peak_power_level
      × IsU32 m.instantaneous_peak_power_period
      × IsU32 m.sustainable_peak_power_level
      × IsU32 m.sustainable_peak_power_period
  IsResponse (get_bpc m) =
      IsU32 m.revision
      × IsU32 m.power_threshold_support
      × IsU32 m.max_instantaneous_peak_power_threshold
      × IsU32 m.max_sustainable_peak_power_threshold
      × (accepts Buffer.power_threshold_support m.power_threshold_support ≡ true)
  IsResponse (get_bmd m) =
      IsU32 m.status_flags
      × IsU32 m.capability_flags
      × IsU32 m.recalibrate_count
      × IsU32 m.quick_recalibrate_time
      × IsU32 m.slow_recalibrate_time
      × (accepts Buffer.bmd_status_flags m.status_flags ≡ true)
      × (accepts Buffer.bmd_capability_flags m.capability_flags ≡ true)
  IsResponse (get_psr n) = IsU32 n × (accepts Buffer.power_source n ≡ true)
  IsResponse (get_sta n) = IsU32 n × (accepts Buffer.sta_flags n ≡ true)
  IsResponse (get_bct n) = IsU32 n
  IsResponse (get_btm n) = IsU32 n
  IsResponse (set_bms n) = IsU32 n
  IsResponse (set_bma n) = IsU32 n
  IsResponse set_btp = Unit
  IsResponse set_bpt = Unit
  IsResponse set_bmc = Unit

  pub response_row-IsRow : (m : AcpiBatteryResponse) → IsResponse m → IsRow 0 (response_row m)
  response_row-IsRow (get_bix b) h =
      dword_row-IsRow (bix_dwords b) 0
        ((64, b.model_number)
          ∷ (72, b.serial_number)
          ∷ (80, b.battery_type)
          ∷ (88, b.oem_info)
          ∷ (96, dword b.battery_swapping_capability)
          ∷ [])
        (
          omega arith,
          (
            omega (arith, h.2),
            (
              omega (arith, h.2, h.3),
              (omega (arith, h.2, h.3, h.4), (omega (arith, h.2, h.3, h.4, h.5), tt)),
            ),
          ),
        )
  response_row-IsRow (get_pif p) h = (
    omega arith,
    (
      omega arith,
      (omega arith, (omega arith, (omega (arith, h.3), (omega (arith, h.3, h.4), tt)))),
    ),
  )
  response_row-IsRow (get_bst m) h = (omega arith, (omega arith, (omega arith, (omega arith, tt))))
  response_row-IsRow (get_bps m) h =
      (omega arith, (omega arith, (omega arith, (omega arith, (omega arith, tt)))))
  response_row-IsRow (get_bpc m) h = (omega arith, (omega arith, (omega arith, (omega arith, tt))))
  response_row-IsRow (get_bmd m) h =
      (omega arith, (omega arith, (omega arith, (omega arith, (omega arith, tt)))))
  response_row-IsRow (get_psr n) h = (omega arith, tt)
  response_row-IsRow (get_bct n) h = (omega arith, tt)
  response_row-IsRow (get_btm n) h = (omega arith, tt)
  response_row-IsRow (set_bms n) h = (omega arith, tt)
  response_row-IsRow (set_bma n) h = (omega arith, tt)
  response_row-IsRow (get_sta n) h = (omega arith, tt)
  response_row-IsRow set_btp h = tt
  response_row-IsRow set_bpt h = tt
  response_row-IsRow set_bmc h = tt
