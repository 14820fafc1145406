-- ===== src/Battery/Request/Roundtrip.antt =====
-- A request is received as it was sent.
use embedded_services.Base.{
  dec_le, ℕ, ◌^◌, ◌≤◌, ◌<◌, ◌≡◌, ◌⊎◌, refl, inl, inr, true, List, [], ◌∷◌, ◌++◌, ok, err, length,
  arith,
}
use embedded_services.Mctp.Encoding.{skip}
use embedded_services.Battery.Buffer
use embedded_services.Battery.Buffer.{
  buffer_too_small, dword, safe_get_u8, safe_get_dword, and_then,
}
use embedded_services.Battery.Buffer.Layout.{
  IsRow, row_bytes, row-Reads, safe_get_u8-row, safe_get_dword-row, safe_get_dword-read,
  put_all-row, put_all-refused,
}
use embedded_services.Battery.Message.{Accepts, cmd_of_code-code}
use embedded_services.Battery.Request.{
  AcpiBatteryRequest, get_bix, get_bst, get_psr, get_pif, get_bps, get_bpc, get_bmd, get_sta,
  set_btp, set_bmc, get_bct, get_btm, set_bms, set_bma, set_bpt, request_row, command, discriminant,
  serialize, request_of, deserialize,
}

module _ (accepts : Accepts) where
  -- Numbers are u32, and a threshold is a value of its type.
  abbrev pub IsRequest : AcpiBatteryRequest → Type 0
  IsRequest (set_bpt id b) =
      (b.revision < 2 ^ 32)
      × (b.threshold_id < 2 ^ 32)
      × (b.threshold_value < 2 ^ 32)
      × (accepts Buffer.threshold_id b.threshold_id ≡ true)
  IsRequest (set_btp id n) = n < 2 ^ 32
  IsRequest (set_bmc id n) = n < 2 ^ 32
  IsRequest (get_bct id n) = n < 2 ^ 32
  IsRequest (get_btm id n) = n < 2 ^ 32
  IsRequest (set_bms id n) = n < 2 ^ 32
  IsRequest (set_bma id n) = n < 2 ^ 32
  IsRequest _ = Unit

  request_row-IsRow : (m : AcpiBatteryRequest) → IsRow 0 (request_row m)
  request_row-IsRow (get_bix id) = (omega arith, tt)
  request_row-IsRow (get_bst id) = (omega arith, tt)
  request_row-IsRow (get_psr id) = (omega arith, tt)
  request_row-IsRow (get_pif id) = (omega arith, tt)
  request_row-IsRow (get_bps id) = (omega arith, tt)
  request_row-IsRow (get_bpc id) = (omega arith, tt)
  request_row-IsRow (get_bmd id) = (omega arith, tt)
  request_row-IsRow (get_sta id) = (omega arith, tt)
  request_row-IsRow (set_btp id n) = (omega arith, (omega arith, tt))
  request_row-IsRow (set_bmc id n) = (omega arith, (omega arith, tt))
  request_row-IsRow (get_bct id n) = (omega arith, (omega arith, tt))
  request_row-IsRow (get_btm id n) = (omega arith, (omega arith, tt))
  request_row-IsRow (set_bms id n) = (omega arith, (omega arith, tt))
  request_row-IsRow (set_bma id n) = (omega arith, (omega arith, tt))
  request_row-IsRow (set_bpt id b) = (omega arith, (omega arith, (omega arith, (omega arith, tt))))

  request_of_lem :
      (m : AcpiBatteryRequest) (more : List ℕ)
      → IsRequest m
      → request_of accepts (command m) (row_bytes (request_row m) ++ more) ≡ ok m
  unfolding request_of command
  request_of_lem (get_bix id) more h = rw (safe_get_u8-row id more) refl
  request_of_lem (get_bst id) more h = rw (safe_get_u8-row id more) refl
  request_of_lem (get_psr id) more h = rw (safe_get_u8-row id more) refl
  request_of_lem (get_pif id) more h = rw (safe_get_u8-row id more) refl
  request_of_lem (get_bps id) more h = rw (safe_get_u8-row id more) refl
  request_of_lem (get_bpc id) more h = rw (safe_get_u8-row id more) refl
  request_of_lem (get_bmd id) more h = rw (safe_get_u8-row id more) refl
  request_of_lem (get_sta id) more h = rw (safe_get_u8-row id more) refl
  request_of_lem (set_btp id n) more h =
      rw (safe_get_u8-row id (dword n ++ more), safe_get_dword-row (id ∷ []) more 1 n refl h) refl
  request_of_lem (set_bmc id n) more h =
      rw (safe_get_u8-row id (dword n ++ more), safe_get_dword-row (id ∷ []) more 1 n refl h) refl
  request_of_lem (get_bct id n) more h =
      rw (safe_get_u8-row id (dword n ++ more), safe_get_dword-row (id ∷ []) more 1 n refl h) refl
  request_of_lem (get_btm id n) more h =
      rw (safe_get_u8-row id (dword n ++ more), safe_get_dword-row (id ∷ []) more 1 n refl h) refl
  request_of_lem (set_bms id n) more h =
      rw (safe_get_u8-row id (dword n ++ more), safe_get_dword-row (id ∷ []) more 1 n refl h) refl
  request_of_lem (set_bma id n) more h =
      rw (safe_get_u8-row id (dword n ++ more), safe_get_dword-row (id ∷ []) more 1 n refl h) refl
  request_of_lem (set_bpt id b) more h =
      let r = row-Reads (request_row (set_bpt id b)) [] more (request_row-IsRow (set_bpt id b)) in
      let bytes = row_bytes (request_row (set_bpt id b)) ++ more in
      rw
        (
          safe_get_u8-row id
              (dword b.revision ++ (dword b.threshold_id ++ (dword b.threshold_value ++ more))),
          safe_get_dword-read bytes 1 b.revision r.1.0 h.0,
          safe_get_dword-read bytes 5 b.threshold_id r.1.1.0 h.1,
          h.3,
          safe_get_dword-read bytes 9 b.threshold_value r.1.1.1.0 h.2,
        )
        refl

  -- A request whose values its types allow is written at the start of every buffer that has room for its
  -- bytes, with the rest left as it was, and refused by every smaller one; it is read back from the bytes
  -- and the discriminant, whatever follows.
  pub deserialize-serialize_request :
      (m : AcpiBatteryRequest) (buffer more : List ℕ)
      → IsRequest m
      → let bs = row_bytes (request_row m) in
        (((length bs ≤ length buffer)
            × (serialize m buffer ≡ (ok (length bs), bs ++ skip (length bs) buffer)))
          ⊎ ((length buffer < length bs) × ((serialize m buffer).0 ≡ err buffer_too_small)))
        × (deserialize accepts (discriminant m) (bs ++ more) ≡ ok m)
  unfolding deserialize serialize
  deserialize-serialize_request m buffer more h = (
    elim (dec_le (length (row_bytes (request_row m))) (length buffer)) [
      | yes l ↦ inl (l, put_all-row (request_row m) [] buffer (request_row-IsRow m) l)
      | no l ↦
          let k : length buffer < length (row_bytes (request_row m)) = omega (arith, l) in
          inr (k, put_all-refused (request_row m) [] buffer (request_row-IsRow m) k)
    ],
    rw (cmd_of_code-code (command m)) (request_of_lem m more h),
  )
