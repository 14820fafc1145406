-- ===== src/Battery/Tests.antt =====
-- Examples: a status and a threshold, where the values of every type are the numbers below 16.
use embedded_services.Base.{
  ℕ, ◌≡◌, ◌≤◌, ◌<◌, ◌⊎◌, refl, List, [], ◌∷◌, ◌++◌, ok, err, length, arith, ltb,
}
use embedded_services.Mctp.Encoding.{skip}
use embedded_services.Battery.Buffer.{buffer_too_small}
use embedded_services.Battery.Buffer.Layout.{row_bytes}
use embedded_services.Battery.Message.{Accepts, code}
use embedded_services.Battery.Response
use embedded_services.Battery.Response.{AcpiBatteryResponse, get_bst}
use embedded_services.Battery.Response.Layout.{response_row}
use embedded_services.Battery.Response.Roundtrip.{deserialize-serialize_response}
use embedded_services.Battery.Request
use embedded_services.Battery.Request.{AcpiBatteryRequest, set_bpt, request_row}
use embedded_services.Battery.Request.Roundtrip.{deserialize-serialize_request}

abbrev accepts : Accepts
accepts p n = ltb n 16

abbrev status : AcpiBatteryResponse
status = get_bst (record {
  battery_state = 2;
  battery_present_rate = 70000;
  battery_remaining_capacity = 4000000000;
  battery_present_voltage = 11100;
})

abbrev buffer : List ℕ
buffer = 9 ∷ 9 ∷ 9 ∷ 9 ∷ 9 ∷ 9 ∷ 9 ∷ 9 ∷ 9 ∷ 9 ∷ 9 ∷ 9 ∷ 9 ∷ 9 ∷ 9 ∷ 9 ∷ 9 ∷ []

deserialize-serialize_response_example :
    let bs = row_bytes (response_row status) in
    (((length bs ≤ 17)
        × (Response.serialize status buffer ≡ (ok (length bs), bs ++ skip (length bs) buffer)))
      ⊎ ((17 < length bs) × ((Response.serialize status buffer).0 ≡ err buffer_too_small)))
    × (Response.deserialize accepts 2 (bs ++ (1 ∷ [])) ≡ ok status)
unfolding Response.command code
deserialize-serialize_response_example =
    deserialize-serialize_response accepts status buffer (1 ∷ [])
      (omega arith, omega arith, omega arith, omega arith, refl)

abbrev threshold : AcpiBatteryRequest
threshold = set_bpt 3 (record { revision = 1; threshold_id = 2; threshold_value = 65536 })

deserialize-serialize_request_example :
    let bs = row_bytes (request_row threshold) in
    (((length bs ≤ 17)
        × (Request.serialize threshold buffer ≡ (ok (length bs), bs ++ skip (length bs) buffer)))
      ⊎ ((17 < length bs) × ((Request.serialize threshold buffer).0 ≡ err buffer_too_small)))
    × (Request.deserialize accepts 7 (bs ++ []) ≡ ok threshold)
unfolding Request.command code
deserialize-serialize_request_example =
    deserialize-serialize_request accepts threshold buffer []
      (omega arith, omega arith, omega arith, refl)
