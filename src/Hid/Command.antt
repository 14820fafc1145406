-- ===== src/Hid/Command.antt =====
-- embedded-service/src/hid/command.rs: commands, and how they are encoded into a buffer. An encoder gets
-- the size of the buffer that is left, and gives the bytes that it writes.
pub mod Encoded
use embedded_services.Base.{
  ℕ, ◌+◌, ◌-◌, ◌/◌, ◌%◌, ◌^◌, ◌≡◌, Bool, true, false, ◌&&◌, not, Option, none, some, List, [], ◌∷◌,
  ◌++◌, Result, ok, err, map_err, length, ltb, leb, if◌then◌else◌, is_some,
}
use embedded_services.Hid.Opcode
use embedded_services.Hid.Error
use embedded_services.Hid.Error.{Error}
use embedded_services.Hid.Opcode.{
  ReportType, input, output, feature, PowerState, ReportFreq, Protocol, word_of_report_type,
  word_of_power_state, power_state_of_word, word_of_report_freq, report_freq_of_word,
  word_of_protocol, protocol_of_word, word_of_opcode, requires_host_data, extended_report_id,
}

-- What a borrow of a shared buffer gives: its bytes, or nothing while a writer holds it.
abbrev pub SharedRef : Type 0
SharedRef = Option (List ℕ)

pub data Command : Type 0 where
  reset get_protocol vendor : Command
  get_report : ReportType → ℕ → Option ℕ → Command
  set_report : ReportType → ℕ → SharedRef → Command
  get_idle : ℕ → Command
  set_idle : ℕ → ReportFreq → Command
  set_protocol : Protocol → Command
  set_power : PowerState → Command

-- `ok_or`
abbrev pub ok_or {ℓ} : {A : Type ℓ} → Error → Option A → Result A Error
ok_or e (some a) = ok a
ok_or e none = err e

abbrev pub and_then {ℓ κ} :
    {A : Type ℓ} {B : Type κ} → Result A Error → (A → Result B Error) → Result B Error
and_then (ok a) f = f a
and_then (err e) f = err e

abbrev pub is_vendor : Opcode.Opcode → Bool
is_vendor Opcode.vendor = true
is_vendor _ = false

abbrev pub get_report_of : ReportType → Option ℕ → Option ℕ → Result Command Error
get_report_of output id size = err Error.invalid_report_type
get_report_of t id size = and_then (ok_or Error.requires_report_id id) λ i. ok (get_report t i size)

abbrev pub set_report_of : ReportType → Option ℕ → Option SharedRef → Result Command Error
set_report_of input id bytes = err Error.invalid_report_type
set_report_of t id bytes =
    and_then (ok_or Error.requires_report_id id)
      λ i. and_then (ok_or Error.requires_data bytes) λ d. ok (set_report t i d)

-- The command of an opcode, once it is known that its identifier and data are there.
unfoldable pub command_of :
    ℕ
    → Opcode.Opcode
    → Result ReportType Error
    → Option ℕ
    → Option SharedRef
    → Option ℕ
    → Result Command Error
command_of cmd Opcode.reset t id bytes size = ok reset
command_of cmd Opcode.get_report t id bytes size = and_then t λ t. get_report_of t id size
command_of cmd Opcode.set_report t id bytes size = and_then t λ t. set_report_of t id bytes
command_of cmd Opcode.get_idle t id bytes size =
    and_then (ok_or Error.requires_report_id id) λ i. ok (get_idle i)
command_of cmd Opcode.set_idle t id bytes size = and_then (ok_or Error.requires_report_id id) λ i.
    and_then (map_err (λ e. Error.invalid_report_freq) (report_freq_of_word cmd))
      λ f. ok (set_idle i f)
command_of cmd Opcode.get_protocol t id bytes size = ok get_protocol
command_of cmd Opcode.set_protocol t id bytes size =
    and_then (map_err (λ e. Error.invalid_data) (protocol_of_word cmd)) λ p. ok (set_protocol p)
command_of cmd Opcode.set_power t id bytes size =
    and_then (map_err (λ e. Error.invalid_data) (power_state_of_word cmd)) λ s. ok (set_power s)
command_of cmd Opcode.vendor t id bytes size = ok vendor

-- Command::new
unfoldable pub new :
    ℕ
    → Opcode.Opcode
    → Option ReportType
    → Option ℕ
    → Option SharedRef
    → Option ℕ
    → Result Command Error
new cmd opcode t id bytes size =
    if Opcode.requires_report_id opcode && not (is_some id)
    then err Error.requires_report_id
    else if requires_host_data opcode && not (is_some bytes) && not (is_vendor opcode)
    then err Error.requires_data
    else command_of cmd opcode (ok_or Error.invalid_report_type t) id bytes size

-- `u16::to_le_bytes`
abbrev pub to_le_bytes : ℕ → List ℕ
to_le_bytes n = n % 256 ∷ n / 256 % 256 ∷ []

abbrev pub Encoder : Type 0
Encoder = ℕ → Result (List ℕ) Error

-- One encoder after the other, on what is left of the buffer.
infixr 10 ◌then◌
abbrev pub ◌then◌ : Encoder → Encoder → Encoder
(p then q) room = and_then (p room) λ bs. and_then (q (room - length bs)) λ cs. ok (bs ++ cs)

-- Bytes that are written at once, or a buffer that is too small for them.
abbrev pub put : List ℕ → Encoder
put bs room = if ltb room (length bs) then err (Error.invalid_size (length bs) room) else ok bs

abbrev pub type_bits : Option ReportType → ℕ
type_bits (some t) = word_of_report_type t
type_bits none = 0

unfoldable pub encode_common : Opcode.Opcode → Option ReportType → ℕ → Encoder
encode_common opcode t id =
    let val = word_of_opcode opcode + type_bits t in
    if leb extended_report_id id
    then put (to_le_bytes (val + extended_report_id) ++ (id ∷ []))
    else put (to_le_bytes (val + id))

unfoldable pub encode_basic_op : Opcode.Opcode → Encoder
encode_basic_op opcode = put (to_le_bytes (word_of_opcode opcode))

unfoldable pub encode_register : Option ℕ → Encoder
encode_register (some reg) = put (to_le_bytes reg)
encode_register none = λ room. ok []

-- The length counts itself.
unfoldable pub encode_value : ℕ → Encoder
encode_value value = put (to_le_bytes 4 ++ to_le_bytes value)

unfoldable pub encode_data : List ℕ → Encoder
encode_data bytes = put (to_le_bytes ((length bytes + 2) % 2 ^ 16) ++ bytes)

abbrev pub set_report_bytes : ReportType → ℕ → SharedRef → Option ℕ → Encoder
set_report_bytes t id (some bytes) data_reg =
    encode_common Opcode.set_report (some t) id then encode_register data_reg then encode_data bytes
set_report_bytes t id none data_reg = λ room. err Error.invalid_data

unfoldable pub encode_operation : Command → Option ℕ → Encoder
encode_operation reset data_reg = encode_basic_op Opcode.reset
encode_operation (get_report t id size) data_reg =
    encode_common Opcode.get_report (some t) id then encode_register data_reg
encode_operation (set_report t id bytes) data_reg = set_report_bytes t id bytes data_reg
encode_operation (get_idle id) data_reg =
    encode_common Opcode.get_idle none id then encode_register data_reg
encode_operation (set_idle id freq) data_reg =
    encode_common Opcode.set_idle none id
    then encode_register data_reg
    then encode_value (word_of_report_freq freq)
encode_operation get_protocol data_reg =
    encode_basic_op Opcode.get_protocol then encode_register data_reg
encode_operation (set_protocol p) data_reg =
    encode_basic_op Opcode.set_protocol
    then encode_register data_reg
    then encode_value (word_of_protocol p)
encode_operation (set_power s) data_reg =
    put (to_le_bytes (word_of_opcode Opcode.set_power + word_of_power_state s))
encode_operation vendor data_reg = encode_basic_op Opcode.vendor

-- The bytes that are written into a buffer of some size; their number is what the method returns.
unfoldable pub encode_into_slice : Command → Option ℕ → Option ℕ → Encoder
encode_into_slice c command_reg data_reg =
    encode_register command_reg then encode_operation c data_reg
