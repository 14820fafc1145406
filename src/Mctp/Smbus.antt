-- ===== src/Mctp/Smbus.antt =====
-- SmbusEspiMedium of mctp-rs/src/medium/smbus_espi.rs: frames of four header bytes, a body and a PEC byte.
-- The macro that packs the header's bits and the crate `smbus_pec` are parameters.
pub mod Frames
pub mod Link
pub mod Delivery
use embedded_services.Base.{
  ℕ, zero, suc, ◌+◌, ◌-◌, ◌*◌, ◌/◌, ◌%◌, ◌≤◌, ◌<◌, ◌≡◌, Option, none, some, List, [], ◌∷◌, ◌++◌,
  Result, ok, err, length, ltb, ◌==◌, if◌then◌else◌, get_elem?,
}
use embedded_services.Mctp.Encoding.{passthrough_encoding, EncodingDecoder, skip}
use embedded_services.Mctp.Serial.{take}
use embedded_services.Mctp.Assembly.{Medium, from_be_bytes}
use embedded_services.Mctp.Sending.{SendingMedium, to_be_bytes}

-- The messages of MediumError.
pub data SmbusError : Type 0 where
  packet_too_short invalid_header body_too_short buffer_too_small header_not_encoded : SmbusError

pub record SmbusReplyContext : Type 0 where
  pub destination_slave_address : ℕ
  pub source_slave_address : ℕ

-- The command code; there is one only.
pub data SmbusCommandCode : Type 0 where
  mctp : SmbusCommandCode

unfoldable pub command_of_bits : ℕ → Option SmbusCommandCode
command_of_bits n = if ltb 255 n then none else if n % 256 == 15 then some mctp else none

unfoldable pub bits_of_command : SmbusCommandCode → ℕ
bits_of_command mctp = 15

-- SmbusEspiMediumHeader, the reserved bits aside.
pub record SmbusHeader : Type 0 where
  pub destination_slave_address : ℕ
  pub command_code : SmbusCommandCode
  pub byte_count : ℕ
  pub source_slave_address : ℕ

pub record SmbusFrame : Type 0 where
  pub header : SmbusHeader
  pub pec : ℕ

-- What the crates supply: the header of a u32, the u32 of a header, and the PEC of some bytes.
pub record SmbusCode : Type 0 where
  pub header_of_bits : ℕ → Option SmbusHeader
  pub bits_of_header : SmbusHeader → Option ℕ
  pub pec : List ℕ → ℕ

unfoldable pub packet_size : SmbusFrame → ℕ
packet_size f = f.header.byte_count

unfoldable pub reply_context : SmbusFrame → SmbusReplyContext
reply_context f = record {
  destination_slave_address = f.header.destination_slave_address;
  source_slave_address = f.header.source_slave_address;
}

-- `packet[i]`
abbrev pub byte_at : ℕ → List ℕ → ℕ
byte_at i [] = 0
byte_at zero (b ∷ bs) = b
byte_at (suc i) (b ∷ bs) = byte_at i bs

abbrev pub with_body :
    Option SmbusHeader → List ℕ → Result (SmbusFrame × EncodingDecoder) SmbusError
with_body (some h) packet =
    if ltb (length packet) (h.byte_count + 1)
    then err body_too_short
    else ok (
      record { header = h; pec = byte_at h.byte_count packet },
      record { rest = take h.byte_count packet },
    )
with_body none packet = err invalid_header

abbrev pub bits_or_error : Option ℕ → Result ℕ SmbusError
bits_or_error (some n) = ok n
bits_or_error none = err header_not_encoded

abbrev pub with_header : Result ℕ SmbusError → (ℕ → List ℕ) → Result (List ℕ) SmbusError
with_header (ok n) f = ok (f n)
with_header (err e) f = err e

module _ (code : SmbusCode) where
  unfoldable pub deserialize : List ℕ → Result (SmbusFrame × EncodingDecoder) SmbusError
  deserialize packet =
      if ltb (length packet) 4
      then err packet_too_short
      else with_body (code.header_of_bits (from_be_bytes (take 4 packet))) (skip 4 packet)

  -- The header of a frame around a body: a reply goes back to the address that it came from.
  abbrev pub frame_header : SmbusReplyContext → List ℕ → SmbusHeader
  frame_header c wire = record {
    destination_slave_address = c.source_slave_address;
    command_code = mctp;
    byte_count = length wire % 256;
    source_slave_address = c.destination_slave_address;
  }

  -- The header in front of the body, and the PEC of both behind it.
  abbrev pub enclose : List ℕ → ℕ → List ℕ
  enclose wire n = let covered = to_be_bytes n ++ wire in covered ++ (code.pec covered ∷ [])

  unfoldable pub close_frame : SmbusReplyContext → ℕ → List ℕ → Result (List ℕ) SmbusError
  close_frame c capacity wire =
      with_header (bits_or_error (code.bits_of_header (frame_header c wire))) (enclose wire)

unfoldable pub room_in : ℕ → Result ℕ SmbusError
room_in capacity = if ltb capacity 5 then err buffer_too_small else ok (capacity - 1 - 4)

abbrev pub max_message_body_size : ℕ
max_message_body_size = 32

unfoldable pub frame_complete : List ℕ → Option ℕ
frame_complete buf =
    let total = 4 + byte_at 2 buf + 1 in
    if ltb (length buf) 4 then none else if ltb (length buf) total then none else some total

abbrev pub receiving_medium : SmbusCode → Medium SmbusFrame SmbusError SmbusReplyContext
receiving_medium code = record {
  encoding = passthrough_encoding;
  deserialize = deserialize code;
  packet_size = packet_size;
  reply_context = reply_context;
}

abbrev pub sending_medium : SmbusCode → SendingMedium SmbusError SmbusReplyContext
sending_medium code = record {
  encoding = passthrough_encoding;
  max_message_body_size = max_message_body_size;
  room_in = room_in;
  close_frame = close_frame code;
}
