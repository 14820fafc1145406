-- ===== src/Battery/Request.antt =====
-- AcpiBatteryRequest of battery-service-relay/src/serialization.rs. A request with one value carries a trip
-- point, control flags, a charge level, a discharge rate, a time or an interval.
pub mod Roundtrip
use embedded_services.Base.{
  ℕ, ◌+◌, ◌≡◌, List, [], ◌∷◌, ◌++◌, Result, ok, err, length, ltb, if◌then◌else◌,
}
use embedded_services.Base.Exec.{pure}
use embedded_services.Battery.Buffer
use embedded_services.Battery.Buffer.{
  MessageError, and_then, safe_get_u8, safe_get_dword, dword, Put, put_all,
}
use embedded_services.Battery.Message
use embedded_services.Battery.Message.{BatteryCmd, code, cmd_of_code, Bpt, Accepts, checked}

-- The first argument is the battery.
pub data AcpiBatteryRequest : Type 0 where
  get_bix get_bst get_psr get_pif get_bps get_bpc get_bmd get_sta : ℕ → AcpiBatteryRequest
  set_btp set_bmc get_bct get_btm set_bms set_bma : ℕ → ℕ → AcpiBatteryRequest
  set_bpt : ℕ → Bpt → AcpiBatteryRequest

unfoldable pub command : AcpiBatteryRequest → BatteryCmd
command (get_bix id) = Message.get_bix
command (get_bst id) = Message.get_bst
command (get_psr id) = Message.get_psr
command (get_pif id) = Message.get_pif
command (get_bps id) = Message.get_bps
command (set_btp id m) = Message.set_btp
command (set_bpt id m) = Message.set_bpt
command (get_bpc id) = Message.get_bpc
command (set_bmc id m) = Message.set_bmc
command (get_bmd id) = Message.get_bmd
command (get_bct id m) = Message.get_bct
command (get_btm id m) = Message.get_btm
command (set_bms id m) = Message.set_bms
command (set_bma id m) = Message.set_bma
command (get_sta id) = Message.get_sta

abbrev pub discriminant : AcpiBatteryRequest → ℕ
discriminant m = code (command m)

abbrev pub id_row : ℕ → List (ℕ × List ℕ)
id_row id = (0, id ∷ []) ∷ []

abbrev pub value_row : ℕ → ℕ → List (ℕ × List ℕ)
value_row id n = (0, id ∷ []) ∷ (1, dword n) ∷ []

abbrev pub request_row : AcpiBatteryRequest → List (ℕ × List ℕ)
request_row (get_bix id) = id_row id
request_row (get_bst id) = id_row id
request_row (get_psr id) = id_row id
request_row (get_pif id) = id_row id
request_row (get_bps id) = id_row id
request_row (get_bpc id) = id_row id
request_row (get_bmd id) = id_row id
request_row (get_sta id) = id_row id
request_row (set_btp id n) = value_row id n
request_row (set_bmc id n) = value_row id n
request_row (get_bct id n) = value_row id n
request_row (get_btm id n) = value_row id n
request_row (set_bms id n) = value_row id n
request_row (set_bma id n) = value_row id n
request_row (set_bpt id b) =
    (0, id ∷ [])
    ∷ (1, dword b.revision)
    ∷ (5, dword b.threshold_id)
    ∷ (9, dword b.threshold_value)
    ∷ []

unfoldable pub serialize : AcpiBatteryRequest → Put
serialize m = put_all (request_row m)

abbrev pub with_id : List ℕ → (ℕ → AcpiBatteryRequest) → Result AcpiBatteryRequest MessageError
with_id buffer f = and_then (safe_get_u8 buffer 0) λ id. ok (f id)

abbrev pub with_value :
    List ℕ → (ℕ → ℕ → AcpiBatteryRequest) → Result AcpiBatteryRequest MessageError
with_value buffer f =
    and_then (safe_get_u8 buffer 0) λ id. and_then (safe_get_dword buffer 1) λ n. ok (f id n)

module _ (accepts : Accepts) where
  -- The message of a command.
  unfoldable pub request_of : BatteryCmd → List ℕ → Result AcpiBatteryRequest MessageError
  request_of Message.get_bix buffer = with_id buffer get_bix
  request_of Message.get_bst buffer = with_id buffer get_bst
  request_of Message.get_psr buffer = with_id buffer get_psr
  request_of Message.get_pif buffer = with_id buffer get_pif
  request_of Message.get_bps buffer = with_id buffer get_bps
  request_of Message.get_bpc buffer = with_id buffer get_bpc
  request_of Message.get_bmd buffer = with_id buffer get_bmd
  request_of Message.get_sta buffer = with_id buffer get_sta
  request_of Message.set_btp buffer = with_value buffer set_btp
  request_of Message.set_bmc buffer = with_value buffer set_bmc
  request_of Message.get_bct buffer = with_value buffer get_bct
  request_of Message.get_btm buffer = with_value buffer get_btm
  request_of Message.set_bms buffer = with_value buffer set_bms
  request_of Message.set_bma buffer = with_value buffer set_bma
  request_of Message.set_bpt buffer = and_then (safe_get_u8 buffer 0) λ id.
      and_then (safe_get_dword buffer 1) λ revision.
        and_then (safe_get_dword buffer 5) λ threshold_id.
          and_then (checked accepts Buffer.threshold_id threshold_id) λ threshold_id.
            and_then (safe_get_dword buffer 9) λ threshold_value. ok (
              set_bpt id (record {
                revision = revision;
                threshold_id = threshold_id;
                threshold_value = threshold_value;
              }))

  unfoldable pub deserialize : ℕ → List ℕ → Result AcpiBatteryRequest MessageError
  deserialize n buffer = and_then (cmd_of_code n) λ c. request_of c buffer
