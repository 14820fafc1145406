-- ===== src/Battery/Response/Roundtrip.antt =====
-- A response is received as it was sent.
use embedded_services.Base.{
  ℕ, ◌≤◌, ◌<◌, ◌≡◌, refl, subst, List, [], ◌++◌, ok, err, length, arith, dec_le, ◌⊎◌, inl, inr,
}
use embedded_services.Mctp.Encoding.{skip}
use embedded_services.Battery.Buffer.{buffer_too_small, dword, safe_get_bytes}
use embedded_services.Battery.Buffer.Layout.{
  row_bytes, safe_get_dword-row, row-Reads, safe_get_dword-read,
}
use embedded_services.Battery.Message.{
  BixFixedStrings, PifFixedStrings, BstReturn, Bps, Bpc, Bmd, Accepts, cmd_of_code-code,
}
use embedded_services.Battery.Response.{
  AcpiBatteryResponse, get_bix, get_bst, get_pif, get_bps, get_bpc, get_bmd, get_psr, get_bct,
  get_btm, set_bms, set_bma, get_sta, set_btp, set_bpt, set_bmc, bix_row, pif_row, command,
  discriminant, serialize, response_of, bix_from_bytes, pif_from_bytes, deserialize,
}
use embedded_services.Battery.Response.Layout.{response_row, response_row-IsRow, IsResponse}
use embedded_services.Battery.Response.Sent.{serialize-fits, serialize-refused}

module _ (accepts : Accepts) where
  response_of-bst :
      (m : BstReturn) (more : List ℕ)
      → IsResponse accepts (get_bst m)
      → response_of accepts (command (get_bst m)) (row_bytes (response_row (get_bst m)) ++ more)
        ≡ ok (get_bst m)
  unfolding response_of command
  response_of-bst m more h =
      rw
        (
          safe_get_dword-row []
              (dword m.battery_present_rate
                ++ (dword m.battery_remaining_capacity
                    ++ (dword m.battery_present_voltage ++ (more))))
              0 m.battery_state refl h.0,
          h.4,
          safe_get_dword-row (dword m.battery_state ++ ([]))
              (dword m.battery_remaining_capacity ++ (dword m.battery_present_voltage ++ (more))) 4
              m.battery_present_rate refl h.1,
          safe_get_dword-row (dword m.battery_state ++ (dword m.battery_present_rate ++ ([])))
              (dword m.battery_present_voltage ++ (more)) 8 m.battery_remaining_capacity refl h.2,
          safe_get_dword-row
              (dword m.battery_state
                ++ (dword m.battery_present_rate ++ (dword m.battery_remaining_capacity ++ ([]))))
              (more) 12 m.battery_present_voltage refl h.3,
        )
        refl

  response_of-bps :
      (m : Bps) (more : List ℕ)
      → IsResponse accepts (get_bps m)
      → response_of accepts (command (get_bps m)) (row_bytes (response_row (get_bps m)) ++ more)
        ≡ ok (get_bps m)
  unfolding response_of command
  response_of-bps m more h =
      rw
        (
          safe_get_dword-row []
              (dword m.instantaneous_peak_power_level
                ++ (dword m.instantaneous_peak_power_period
                    ++ (dword m.sustainable_peak_power_level
                        ++ (dword m.sustainable_peak_power_period ++ (more)))))
              0 m.revision refl h.0,
          safe_get_dword-row (dword m.revision ++ ([]))
              (dword m.instantaneous_peak_power_period
                ++ (dword m.sustainable_peak_power_level
                    ++ (dword m.sustainable_peak_power_period ++ (more))))
              4 m.instantaneous_peak_power_level refl h.1,
          safe_get_dword-row (dword m.revision ++ (dword m.instantaneous_peak_power_level ++ ([])))
              (dword m.sustainable_peak_power_level
                ++ (dword m.sustainable_peak_power_period ++ (more)))
              8 m.instantaneous_peak_power_period refl h.2,
          safe_get_dword-row
              (dword m.revision
                ++ (dword m.instantaneous_peak_power_level
                    ++ (dword m.instantaneous_peak_power_period ++ ([]))))
              (dword m.sustainable_peak_power_period ++ (more)) 12 m.sustainable_peak_power_level
              refl h.3,
          safe_get_dword-row
              (dword m.revision
                ++ (dword m.instantaneous_peak_power_level
                    ++ (dword m.instantaneous_peak_power_period
                        ++ (dword m.sustainable_peak_power_level ++ ([])))))
              (more) 16 m.sustainable_peak_power_period refl h.4,
        )
        refl

  response_of-bpc :
      (m : Bpc) (more : List ℕ)
      → IsResponse accepts (get_bpc m)
      → response_of accepts (command (get_bpc m)) (row_bytes (response_row (get_bpc m)) ++ more)
        ≡ ok (get_bpc m)
  unfolding response_of command
  response_of-bpc m more h =
      rw
        (
          safe_get_dword-row []
              (dword m.power_threshold_support
                ++ (dword m.max_instantaneous_peak_power_threshold
                    ++ (dword m.max_sustainable_peak_power_threshold ++ (more))))
              0 m.revision refl h.0,
          safe_get_dword-row (dword m.revision ++ ([]))
              (dword m.max_instantaneous_peak_power_threshold
                ++ (dword m.max_sustainable_peak_power_threshold ++ (more)))
              4 m.power_threshold_support refl h.1,
          h.4,
          safe_get_dword-row (dword m.revision ++ (dword m.power_threshold_support ++ ([])))
              (dword m.max_sustainable_peak_power_threshold ++ (more)) 8
              m.max_instantaneous_peak_power_threshold refl h.2,
          safe_get_dword-row
              (dword m.revision
                ++ (dword m.power_threshold_support
                    ++ (dword m.max_instantaneous_peak_power_threshold ++ ([]))))
              (more) 12 m.max_sustainable_peak_power_threshold refl h.3,
        )
        refl

  response_of-bmd :
      (m : Bmd) (more : List ℕ)
      → IsResponse accepts (get_bmd m)
      → response_of accepts (command (get_bmd m)) (row_bytes (response_row (get_bmd m)) ++ more)
        ≡ ok (get_bmd m)
  unfolding response_of command
  response_of-bmd m more h =
      rw
        (
          safe_get_dword-row []
              (dword m.capability_flags
                ++ (dword m.recalibrate_count
                    ++ (dword m.quick_recalibrate_time
                        ++ (dword m.slow_recalibrate_time ++ (more)))))
              0 m.status_flags refl h.0,
          h.5,
          safe_get_dword-row (dword m.status_flags ++ ([]))
              (dword m.recalibrate_count
                ++ (dword m.quick_recalibrate_time ++ (dword m.slow_recalibrate_time ++ (more))))
              4 m.capability_flags refl h.1,
          h.6,
          safe_get_dword-row (dword m.status_flags ++ (dword m.capability_flags ++ ([])))
              (dword m.quick_recalibrate_time ++ (dword m.slow_recalibrate_time ++ (more))) 8
              m.recalibrate_count refl h.2,
          safe_get_dword-row
              (dword m.status_flags
                ++ (dword m.capability_flags ++ (dword m.recalibrate_count ++ ([]))))
              (dword m.slow_recalibrate_time ++ (more)) 12 m.quick_recalibrate_time refl h.3,
          safe_get_dword-row
              (dword m.status_flags
                ++ (dword m.capability_flags
                    ++ (dword m.recalibrate_count ++ (dword m.quick_recalibrate_time ++ ([])))))
              (more) 16 m.slow_recalibrate_time refl h.4,
        )
        refl

  response_of-pif :
      (p : PifFixedStrings) (more : List ℕ)
      → IsResponse accepts (get_pif p)
      → response_of accepts (command (get_pif p)) (row_bytes (pif_row p) ++ more) ≡ ok (get_pif p)
  unfolding response_of command pif_from_bytes
  response_of-pif p more h =
      let b = row_bytes (pif_row p) ++ more in
      let r = row-Reads (pif_row p) [] more (response_row-IsRow accepts (get_pif p) h) in
      let get : (i n : ℕ) (bs : List ℕ)
          → length bs ≡ n
          → safe_get_bytes (length bs) b i ≡ ok bs
          → safe_get_bytes n b i ≡ ok bs =
        λ i n bs l e. subst (λ k. safe_get_bytes k b i ≡ ok bs) l e in
      rw
        (
          safe_get_dword-read b 0 p.power_source_state r.0 h.0,
          h.6,
          safe_get_dword-read b 4 p.max_output_power r.1.0 h.1,
          safe_get_dword-read b 8 p.max_input_power r.1.1.0 h.2,
          get 12 8 p.model_number h.3 r.1.1.1.0,
          get 20 8 p.serial_number h.4 r.1.1.1.1.0,
          get 28 8 p.oem_info h.5 r.1.1.1.1.1.0,
        )
        refl

  response_of-bix :
      (p : BixFixedStrings) (more : List ℕ)
      → IsResponse accepts (get_bix p)
      → response_of accepts (command (get_bix p)) (row_bytes (bix_row p) ++ more) ≡ ok (get_bix p)
  unfolding response_of command bix_from_bytes
  response_of-bix p more h =
      let b = row_bytes (bix_row p) ++ more in
      let r = row-Reads (bix_row p) [] more (response_row-IsRow accepts (get_bix p) h) in
      let get : (i n : ℕ) (bs : List ℕ)
          → length bs ≡ n
          → safe_get_bytes (length bs) b i ≡ ok bs
          → safe_get_bytes n b i ≡ ok bs =
        λ i n bs l e. subst (λ k. safe_get_bytes k b i ≡ ok bs) l e in
      rw
        (
          safe_get_dword-read b 0 p.revision r.0 h.0.0,
          safe_get_dword-read b 4 p.power_unit r.1.0 h.0.1.0,
          h.6,
          safe_get_dword-read b 8 p.design_capacity r.1.1.0 h.0.1.1.0,
          safe_get_dword-read b 12 p.last_full_charge_capacity r.1.1.1.0 h.0.1.1.1.0,
          safe_get_dword-read b 16 p.battery_technology r.1.1.1.1.0 h.0.1.1.1.1.0,
          h.7,
          safe_get_dword-read b 20 p.design_voltage r.1.1.1.1.1.0 h.0.1.1.1.1.1.0,
          safe_get_dword-read b 24 p.design_cap_of_warning r.1.1.1.1.1.1.0 h.0.1.1.1.1.1.1.0,
          safe_get_dword-read b 28 p.design_cap_of_low r.1.1.1.1.1.1.1.0 h.0.1.1.1.1.1.1.1.0,
          safe_get_dword-read b 32 p.cycle_count r.1.1.1.1.1.1.1.1.0 h.0.1.1.1.1.1.1.1.1.0,
          safe_get_dword-read b 36 p.measurement_accuracy r.1.1.1.1.1.1.1.1.1.0
              h.0.1.1.1.1.1.1.1.1.1.0,
          safe_get_dword-read b 40 p.max_sampling_time r.1.1.1.1.1.1.1.1.1.1.0
              h.0.1.1.1.1.1.1.1.1.1.1.0,
          safe_get_dword-read b 44 p.min_sampling_time r.1.1.1.1.1.1.1.1.1.1.1.0
              h.0.1.1.1.1.1.1.1.1.1.1.1.0,
          safe_get_dword-read b 48 p.max_averaging_interval r.1.1.1.1.1.1.1.1.1.1.1.1.0
              h.0.1.1.1.1.1.1.1.1.1.1.1.1.0,
          safe_get_dword-read b 52 p.min_averaging_interval r.1.1.1.1.1.1.1.1.1.1.1.1.1.0
              h.0.1.1.1.1.1.1.1.1.1.1.1.1.1.0,
          safe_get_dword-read b 56 p.battery_capacity_granularity_1 r.1.1.1.1.1.1.1.1.1.1.1.1.1.1.0
              h.0.1.1.1.1.1.1.1.1.1.1.1.1.1.1.0,
          safe_get_dword-read b 60 p.battery_capacity_granularity_2
              r.1.1.1.1.1.1.1.1.1.1.1.1.1.1.1.0 h.0.1.1.1.1.1.1.1.1.1.1.1.1.1.1.1.0,
          get 64 8 p.model_number h.2 r.1.1.1.1.1.1.1.1.1.1.1.1.1.1.1.1.0,
          get 72 8 p.serial_number h.3 r.1.1.1.1.1.1.1.1.1.1.1.1.1.1.1.1.1.0,
          get 80 8 p.battery_type h.4 r.1.1.1.1.1.1.1.1.1.1.1.1.1.1.1.1.1.1.0,
          get 88 8 p.oem_info h.5 r.1.1.1.1.1.1.1.1.1.1.1.1.1.1.1.1.1.1.1.0,
          safe_get_dword-read b 96 p.battery_swapping_capability
              r.1.1.1.1.1.1.1.1.1.1.1.1.1.1.1.1.1.1.1.1.0 h.1,
          h.8,
        )
        refl

  response_of_lem :
      (m : AcpiBatteryResponse) (more : List ℕ)
      → IsResponse accepts m
      → response_of accepts (command m) (row_bytes (response_row m) ++ more) ≡ ok m
  unfolding response_of command
  response_of_lem (get_bix b) more h = response_of-bix b more h
  response_of_lem (get_pif p) more h = response_of-pif p more h
  response_of_lem (get_bst m) more h = response_of-bst m more h
  response_of_lem (get_bps m) more h = response_of-bps m more h
  response_of_lem (get_bpc m) more h = response_of-bpc m more h
  response_of_lem (get_bmd m) more h = response_of-bmd m more h
  response_of_lem (get_psr n) more h = rw (safe_get_dword-row [] more 0 n refl h.0, h.1) refl
  response_of_lem (get_sta n) more h = rw (safe_get_dword-row [] more 0 n refl h.0, h.1) refl
  response_of_lem (get_bct n) more h = rw (safe_get_dword-row [] more 0 n refl h) refl
  response_of_lem (get_btm n) more h = rw (safe_get_dword-row [] more 0 n refl h) refl
  response_of_lem (set_bms n) more h = rw (safe_get_dword-row [] more 0 n refl h) refl
  response_of_lem (set_bma n) more h = rw (safe_get_dword-row [] more 0 n refl h) refl
  response_of_lem set_btp more h = refl
  response_of_lem set_bpt more h = refl
  response_of_lem set_bmc more h = refl

  -- A response whose values its types allow is written at the start of every buffer that has room for its
  -- bytes, with the rest left as it was, and refused by every smaller one; it is read back from the bytes
  -- and the discriminant, whatever follows.
  pub deserialize-serialize_response :
      (m : AcpiBatteryResponse) (buffer more : List ℕ)
      → IsResponse accepts m
      → let bs = row_bytes (response_row m) in
        (((length bs ≤ length buffer)
            × (serialize m buffer ≡ (ok (length bs), bs ++ skip (length bs) buffer)))
          ⊎ ((length buffer < length bs) × ((serialize m buffer).0 ≡ err buffer_too_small)))
        × (deserialize accepts (discriminant m) (bs ++ more) ≡ ok m)
  unfolding deserialize
  deserialize-serialize_response m buffer more h = (
    elim (dec_le (length (row_bytes (response_row m))) (length buffer)) [
      | yes l ↦ inl (l, serialize-fits accepts m buffer h l)
      | no l ↦
          let k : length buffer < length (row_bytes (response_row m)) = omega (arith, l) in
          inr (k, serialize-refused accepts m buffer h k)
    ],
    rw (cmd_of_code-code (command m)) (response_of_lem m more h),
  )
