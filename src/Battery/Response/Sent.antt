-- ===== src/Battery/Response/Sent.antt =====
-- A response is sent as its row, or refused.
use embedded_services.Base.{
  ℕ, ◌≤◌, ◌<◌, ◌≡◌, refl, ◌∙◌, true, false, List, [], ◌++◌, ok, err, length, length-append, arith,
  ltb,
}
use embedded_services.Mctp.Encoding.{skip}
use embedded_services.Battery.Buffer.{buffer_too_small, dword, put_all}
use embedded_services.Battery.Buffer.Layout.{row_bytes, put_all-row, put_all-refused}
use embedded_services.Battery.Message.{BixFixedStrings, PifFixedStrings, Accepts}
use embedded_services.Battery.Response.{
  AcpiBatteryResponse, get_bix, get_bst, get_pif, get_bps, get_bpc, get_bmd, get_psr, get_bct,
  get_btm, set_bms, set_bma, get_sta, set_btp, set_bpt, set_bmc, bix_row, pif_row, bix_to_bytes,
  pif_to_bytes, serialize,
}
use embedded_services.Battery.Response.Layout.{IsResponse, response_row, response_row-IsRow}

module _ (accepts : Accepts) where
  -- A message is sent as its row, or not at all.
  length-bix_row :
      (b : BixFixedStrings) → IsResponse accepts (get_bix b) → length (row_bytes (bix_row b)) ≡ 100
  length-bix_row b h =
      let z = dword b.battery_swapping_capability in
      let o = b.oem_info ++ z in
      let t = b.battery_type ++ o in
      let s = b.serial_number ++ t in
      omega (
        arith,
        h.2,
        h.3,
        h.4,
        h.5,
        length-append b.model_number s,
        length-append b.serial_number t,
        length-append b.battery_type o,
        length-append b.oem_info z,
      )

  length-pif_row :
      (p : PifFixedStrings) → IsResponse accepts (get_pif p) → length (row_bytes (pif_row p)) ≡ 36
  length-pif_row p h =
      let o = p.oem_info ++ [] in
      let s = p.serial_number ++ o in
      omega (
        arith,
        h.3,
        h.4,
        h.5,
        length-append p.model_number s,
        length-append p.serial_number o,
        length-append p.oem_info [],
      )

  serialize-put_all :
      (m : AcpiBatteryResponse) (buffer : List ℕ)
      → IsResponse accepts m
      → length (row_bytes (response_row m)) ≤ length buffer
      → serialize m buffer ≡ put_all (response_row m) buffer
  unfolding serialize bix_to_bytes pif_to_bytes put_all
  serialize-put_all (get_bix b) buffer h l =
      let k : ltb (length buffer) 100 ≡ false = ground (arith, l, length-bix_row b h) in rw k refl
  serialize-put_all (get_pif p) buffer h l =
      let k : ltb (length buffer) 36 ≡ false = ground (arith, l, length-pif_row p h) in rw k refl
  serialize-put_all (get_bst m) buffer h l = refl
  serialize-put_all (get_bps m) buffer h l = refl
  serialize-put_all (get_bpc m) buffer h l = refl
  serialize-put_all (get_bmd m) buffer h l = refl
  serialize-put_all (get_psr n) buffer h l = refl
  serialize-put_all (get_bct n) buffer h l = refl
  serialize-put_all (get_btm n) buffer h l = refl
  serialize-put_all (set_bms n) buffer h l = refl
  serialize-put_all (set_bma n) buffer h l = refl
  serialize-put_all (get_sta n) buffer h l = refl
  serialize-put_all set_btp buffer h l = refl
  serialize-put_all set_bpt buffer h l = refl
  serialize-put_all set_bmc buffer h l = refl

  pub serialize-fits :
      (m : AcpiBatteryResponse) (buffer : List ℕ)
      → IsResponse accepts m
      → let bs = row_bytes (response_row m) in
        length bs ≤ length buffer
        → serialize m buffer ≡ (ok (length bs), bs ++ skip (length bs) buffer)
  serialize-fits m buffer h l =
      serialize-put_all m buffer h l
      ∙ put_all-row (response_row m) [] buffer (response_row-IsRow accepts m h) l

  pub serialize-refused :
      (m : AcpiBatteryResponse) (buffer : List ℕ)
      → IsResponse accepts m
      → length buffer < length (row_bytes (response_row m))
      → (serialize m buffer).0 ≡ err buffer_too_small
  unfolding serialize bix_to_bytes pif_to_bytes
  serialize-refused (get_bix b) buffer h l =
      let k : ltb (length buffer) 100 ≡ true = ground (arith, l, length-bix_row b h) in rw k refl
  serialize-refused (get_pif p) buffer h l =
      let k : ltb (length buffer) 36 ≡ true = ground (arith, l, length-pif_row p h) in rw k refl
  serialize-refused (get_bst m) buffer h l =
      put_all-refused (response_row (get_bst m)) [] buffer
        (response_row-IsRow accepts (get_bst m) h) l
  serialize-refused (get_bps m) buffer h l =
      put_all-refused (response_row (get_bps m)) [] buffer
        (response_row-IsRow accepts (get_bps m) h) l
  serialize-refused (get_bpc m) buffer h l =
      put_all-refused (response_row (get_bpc m)) [] buffer
        (response_row-IsRow accepts (get_bpc m) h) l
  serialize-refused (get_bmd m) buffer h l =
      put_all-refused (response_row (get_bmd m)) [] buffer
        (response_row-IsRow accepts (get_bmd m) h) l
  serialize-refused (get_psr n) buffer h l =
      put_all-refused (response_row (get_psr n)) [] buffer
        (response_row-IsRow accepts (get_psr n) h) l
  serialize-refused (get_bct n) buffer h l =
      put_all-refused (response_row (get_bct n)) [] buffer
        (response_row-IsRow accepts (get_bct n) h) l
  serialize-refused (get_btm n) buffer h l =
      put_all-refused (response_row (get_btm n)) [] buffer
        (response_row-IsRow accepts (get_btm n) h) l
  serialize-refused (set_bms n) buffer h l =
      put_all-refused (response_row (set_bms n)) [] buffer
        (response_row-IsRow accepts (set_bms n) h) l
  serialize-refused (set_bma n) buffer h l =
      put_all-refused (response_row (set_bma n)) [] buffer
        (response_row-IsRow accepts (set_bma n) h) l
  serialize-refused (get_sta n) buffer h l =
      put_all-refused (response_row (get_sta n)) [] buffer
        (response_row-IsRow accepts (get_sta n) h) l
  serialize-refused set_btp buffer h l = absurd (omega (arith, l))
  serialize-refused set_bpt buffer h l = absurd (omega (arith, l))
  serialize-refused set_bmc buffer h l = absurd (omega (arith, l))
