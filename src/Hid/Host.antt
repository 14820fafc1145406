-- ===== src/Hid/Host.antt =====
-- hid-service/src/i2c/host.rs: how a request of the host is read from the bus. The bus is the bytes that the
-- host writes; a read of more bytes than come times out. Errors of the bus itself are left out, and nobody else
-- borrows the buffer while a request is read.
pub mod Decode
pub mod Words
pub mod Exchange
pub mod Roundtrip
pub mod Access
use embedded_services.Base.{
  ℕ, ◌+◌, ◌-◌, ◌*◌, ◌≡◌, Bool, true, false, ◌&&◌, ◌||◌, not, Option, none, some, List, [], ◌∷◌,
  ◌++◌, Result, ok, err, map_err, length, ltb, ◌==◌, if◌then◌else◌,
}
use embedded_services.Base.Exec.{Exec, ◌>>=◌, ◌>>◌, pure, fail, lift, modify}
use embedded_services.Mctp.Serial.{take}
use embedded_services.Mctp.Encoding.{skip}
use embedded_services.Hid.Error
use embedded_services.Hid.Error.{Error}
use embedded_services.Hid.Opcode
use embedded_services.Hid.Opcode.{
  ReportType, opcode_of_word, report_type_of_word, requires_report_id, requires_host_data,
  has_response, has_extended_report_id, from_command,
}
use embedded_services.Hid.Command
use embedded_services.Hid.Command.{Command, SharedRef, new}

-- RegisterFile
pub record RegisterFile : Type 0 where
  pub hid_desc_reg : ℕ
  pub report_desc_reg : ℕ
  pub input_reg : ℕ
  pub output_reg : ℕ
  pub command_reg : ℕ
  pub data_reg : ℕ

unfoldable pub default_registers : RegisterFile
default_registers = record {
  hid_desc_reg = 1;
  report_desc_reg = 2;
  input_reg = 3;
  output_reg = 4;
  command_reg = 5;
  data_reg = 6;
}

-- The requests of hid::Request.
pub data Request : Type 0 where
  descriptor report_descriptor input_report : Request
  output_report : Option ℕ → SharedRef → Request
  command : Command → Request

-- Error of the service: one of hid::Error, or the buffer's InvalidRange.
pub data HostError : Type 0 where
  hid : Error → HostError
  invalid_range : HostError

-- What the host still writes, and the shared buffer.
pub record Host : Type 0 where
  pub incoming : List ℕ
  pub buffer : List ℕ

abbrev pub Read : Type 0 → Type 0
Read = Exec Host HostError

-- read_bus into a local array.
unfoldable pub read_bus : ℕ → Read (List ℕ)
read_bus n h =
    if ltb (length h.incoming) n
    then (err (hid Error.timeout), h)
    else (ok (take n h.incoming), record h { incoming = skip n h.incoming })

-- `u16::from_le_bytes`
abbrev pub from_le_bytes : List ℕ → ℕ
from_le_bytes (a ∷ b ∷ bs) = a + b * 256
from_le_bytes _ = 0

abbrev pub first_byte : List ℕ → ℕ
first_byte (b ∷ bs) = b
first_byte [] = 0

-- `get_mut(from..to)` in a buffer of `size` bytes.
abbrev pub in_range : ℕ → ℕ → ℕ → Bool
in_range size from to = not (ltb to from) && not (ltb size to)

-- The bytes of a range of the buffer.
abbrev pub range : ℕ → ℕ → List ℕ → List ℕ
range from to bs = take (to - from) (skip from bs)

abbrev pub write_range : ℕ → ℕ → List ℕ → Host → Host
write_range from to bytes h = record h {
  buffer = take from h.buffer ++ (bytes ++ skip to h.buffer);
}

-- read_bus into a range of the buffer, where the buffer has it.
unfoldable pub read_into : ℕ → ℕ → ℕ → Read (Unit {0})
unfolding read_bus
read_into from to expected h =
    if in_range (length h.buffer) from to
    then (read_bus (to - from) >>= λ bytes. modify (write_range from to bytes)) h
    else (err (hid (Error.invalid_size expected (length h.buffer))), h)

-- A length, which counts itself, and the bytes that it announces behind it.
unfoldable pub read_data : Read ℕ
read_data =
    (read_into 0 2 2 >> λ h.
    let len = from_le_bytes h.buffer in (read_into 2 len len >> pure len) h)

-- SharedRef::slice
unfoldable pub slice : ℕ → ℕ → Read SharedRef
slice from to h =
    if ltb from (length h.buffer) && not (ltb (length h.buffer) to)
    then (ok (some (range from to h.buffer)), h)
    else (err invalid_range, h)

abbrev pub id_then : Bool → ℕ → Read (Option ℕ)
id_then true cmd = read_bus 1 >>= λ id. pure (some (first_byte id))
id_then false cmd = pure (some (from_command cmd))

unfoldable pub read_report_id : Opcode.Opcode → ℕ → Read (Option ℕ)
read_report_id opcode cmd =
    if requires_report_id opcode then id_then (has_extended_report_id cmd) cmd else pure none

abbrev pub data_then : Bool → Read (Option SharedRef)
data_then true = read_data >>= λ len. slice 2 len >>= λ d. pure (some d)
data_then false = pure none

abbrev pub checked_data : RegisterFile → Opcode.Opcode → List ℕ → Read (Option SharedRef)
checked_data regs opcode addr =
    if from_le_bytes addr == regs.data_reg
    then data_then (requires_host_data opcode)
    else fail (hid Error.invalid_register_address)

-- The address of the data register, and the data behind it.
unfoldable pub read_host_data : RegisterFile → Opcode.Opcode → Read (Option SharedRef)
read_host_data regs opcode =
    if requires_host_data opcode || has_response opcode
    then read_bus 2 >>= checked_data regs opcode
    else pure none

abbrev pub type_of_word : ℕ → Option ReportType
type_of_word cmd = elim (report_type_of_word cmd) [ ok t ↦ some t | err e ↦ none ]

unfoldable pub process_command : RegisterFile → Read Command
process_command regs = do
  head ← read_bus 2
  let cmd = from_le_bytes head
  opcode ← lift (map_err hid (opcode_of_word cmd))
  id ← read_report_id opcode cmd
  bytes ← read_host_data regs opcode
  lift (map_err (λ e. hid Error.invalid_command) (new cmd opcode (type_of_word cmd) id bytes none))

-- The report's identifier is the byte after the length.
unfoldable pub process_output_report : Read Request
process_output_report = do
  len ← read_data
  id ← λ h.
      if ltb (length h.buffer) 3
      then (err (hid (Error.invalid_size 3 (length h.buffer))), h)
      else (ok (first_byte (skip 2 h.buffer)), h)
  bytes ← slice 3 len
  pure (output_report (some id) bytes)

-- The registers in the order in which they are looked at.
unfoldable pub dispatch : RegisterFile → ℕ → Read Request
dispatch regs reg =
    if reg == regs.hid_desc_reg
    then pure descriptor
    else if reg == regs.report_desc_reg
    then pure report_descriptor
    else if reg == regs.input_reg
    then pure input_report
    else if reg == regs.command_reg
    then (process_command regs >>= λ c. pure (command c))
    else if reg == regs.output_reg
    then process_output_report
    else fail (hid Error.invalid_register_address)

unfoldable pub process_register_access : RegisterFile → Read Request
process_register_access regs = do head ← read_bus 2; dispatch regs (from_le_bytes head)
