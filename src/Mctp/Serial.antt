-- ===== src/Mctp/Serial.antt =====
-- MctpSerialMedium of mctp-rs/src/medium/serial.rs: frames of a revision, a byte count, a stuffed body, a
-- stuffed checksum and an end flag. The checksum, of the crate `crc`, is a parameter.
pub mod Frames
pub mod Complete
use embedded_services.Base.{
  ℕ, zero, suc, ◌+◌, ◌-◌, ◌*◌, ◌/◌, ◌%◌, ◌≤◌, ◌<◌, ◌≡◌, Bool, true, false, ◌&&◌, not, Option, none,
  some, List, [], ◌∷◌, ◌++◌, Result, ok, err, map_err, length, ltb, ◌==◌, if◌then◌else◌,
}
use embedded_services.Mctp.Encoding.{
  EncodeError, DecodeError, premature_end, invalid_escape, end_flag, skip, serial_encoding,
  serial_read_byte, serial_write_byte, EncodingEncoder, EncodingDecoder, write_all,
}

-- The messages of MediumError.
pub data SerialError : Type 0 where
  packet_too_short unsupported_revision byte_count_exceeds_mtu : SerialError
  premature_end_in_body invalid_escape_in_body unexpected_flag_in_body : SerialError
  invalid_escape_in_fcs missing_end_flag trailing_bytes fcs_mismatch : SerialError
  buffer_too_small failed_to_redecode body_exceeds_mtu body_exceeds_byte_count
        failed_to_encode_fcs :
      SerialError

pub data SerializeError {ℓ} (E : Type ℓ) : Type ℓ where
  medium_error : SerialError → SerializeError E
  writer_error : E → SerializeError E

abbrev pub mtu : ℕ
mtu = 251

abbrev pub serial_revision : ℕ
serial_revision = 1

abbrev pub header_len : ℕ
header_len = 2

abbrev pub max_trailer_wire : ℕ
max_trailer_wire = 5

pub record SerialFrame : Type 0 where
  pub revision : ℕ
  pub byte_count : ℕ
  pub fcs : ℕ

-- FCS_ALGO.digest() over some bytes: a `u16`.
pub record Checksum : Type 0 where
  pub digest : List ℕ → ℕ

-- MctpMediumFrame::packet_size
unfoldable pub packet_size : SerialFrame → ℕ
packet_size f = f.byte_count

abbrev body_error : DecodeError → SerialError
body_error premature_end = premature_end_in_body
body_error invalid_escape = invalid_escape_in_body

-- The decoded bytes, and how many wire bytes they took.
abbrev pub Decoded : Type 0
Decoded = Result (List ℕ × ℕ) SerialError

abbrev pub cons_decoded : ℕ × ℕ → Decoded → Decoded
cons_decoded r (ok d) = ok (r.0 ∷ d.0, r.1 + d.1)
cons_decoded r (err e) = err e

abbrev pub body_byte : Result (ℕ × ℕ) DecodeError → List ℕ → (List ℕ → Decoded) → Decoded
body_byte (ok r) bs f =
    if r.0 == end_flag && r.1 == 1
    then err unexpected_flag_in_body
    else cons_decoded r (f (skip r.1 bs))
body_byte (err e) bs f = err (body_error e)

-- The walk over the body: `while decoded_len < byte_count`.
unfoldable pub unstuff : ℕ → List ℕ → Decoded
unstuff zero bs = ok ([], 0)
unstuff (suc n) bs = body_byte (serial_read_byte bs) bs (unstuff n)

abbrev pub fcs_byte : Result (ℕ × ℕ) DecodeError → List ℕ → Result (ℕ × List ℕ) SerialError
fcs_byte (ok r) bs = ok (r.0, skip r.1 bs)
fcs_byte (err e) bs = err invalid_escape_in_fcs

abbrev pub require : Bool → SerialError → Result (Unit {0}) SerialError
require true e = ok tt
require false e = err e

abbrev pub and_next {ℓ κ} :
    {A : Type ℓ} {B : Type κ}
    → Result A SerialError
    → (A → Result B SerialError)
    → Result B SerialError
and_next (ok a) f = f a
and_next (err e) f = err e

unfoldable pub read_fcs : List ℕ → Result ((ℕ × ℕ) × List ℕ) SerialError
read_fcs bs =
    and_next (fcs_byte (serial_read_byte bs) bs)
      λ m. and_next (fcs_byte (serial_read_byte m.1) m.1) λ l. ok ((m.0, l.0), l.1)

-- The end flag, and nothing after it.
unfoldable pub check_end : List ℕ → Result (Unit {0}) SerialError
check_end [] = err missing_end_flag
check_end (b ∷ []) = if b == end_flag then ok tt else err missing_end_flag
check_end (b ∷ c ∷ bs) = if b == end_flag then err trailing_bytes else err missing_end_flag

unfoldable pub take : ℕ → List ℕ → List ℕ
take zero bs = []
take (suc n) [] = []
take (suc n) (b ∷ bs) = b ∷ take n bs

-- The walk of `serialize` over the body that it has written: `fuel` bounds the rounds, and every round
-- takes a byte at least, so the length of the body is enough. `room` is what is left of the MTU.
unfoldable pub redecode : ℕ → ℕ → List ℕ → Result (List ℕ) SerialError
redecode zero room bs = if length bs == 0 then ok [] else err failed_to_redecode
redecode (suc fuel) room bs =
    if length bs == 0
    then ok []
    else and_next (map_err (λ e. failed_to_redecode) (serial_read_byte bs)) λ r.
      if room == 0
      then err body_exceeds_mtu
      else and_next (redecode fuel (room - 1) (skip r.1 bs)) λ ds. ok (r.0 ∷ ds)

abbrev pub write_fcs_byte : ℕ → ℕ → Result (List ℕ) SerialError
write_fcs_byte room b = map_err (λ e. failed_to_encode_fcs) (serial_write_byte room b)

module _ (crc : Checksum) where
  -- The frame, and the wire bytes of the body, which the decoder reads.
  abbrev pub check_fcs :
      ℕ → List ℕ → ℕ × ℕ → List ℕ → Result (SerialFrame × EncodingDecoder) SerialError
  check_fcs count decoded f wire =
      let fcs = f.0 * 256 + f.1 in
      if fcs == crc.digest (serial_revision ∷ count ∷ decoded)
      then ok (
        record { revision = serial_revision; byte_count = count; fcs = fcs },
        record { rest = wire },
      )
      else err fcs_mismatch

  unfoldable pub deserialize_body : ℕ → List ℕ → Result (SerialFrame × EncodingDecoder) SerialError
  deserialize_body count body = and_next (unstuff count body) λ d.
      and_next (read_fcs (skip d.1 body))
        λ f. and_next (check_end f.1) λ _. check_fcs count d.0 f.0 (take d.1 body)

  deserialize_header : ℕ → ℕ → List ℕ → Result (SerialFrame × EncodingDecoder) SerialError
  unfolding deserialize_body
  deserialize_header revision count body =
      if not (revision == serial_revision)
      then err unsupported_revision
      else if ltb mtu count
      then err byte_count_exceeds_mtu
      else deserialize_body count body

  long_packet : List ℕ → Result (SerialFrame × EncodingDecoder) SerialError
  unfolding deserialize_header
  long_packet (revision ∷ count ∷ body) = deserialize_header revision count body
  long_packet _ = err packet_too_short

  unfoldable pub deserialize : List ℕ → Result (SerialFrame × EncodingDecoder) SerialError
  unfolding long_packet
  deserialize packet =
      if ltb (length packet) (header_len + 3) then err packet_too_short else long_packet packet

  -- The frame around a body that stands on the wire; `capacity` is the size of the buffer.
  unfoldable pub close_frame : ℕ → List ℕ → Result (List ℕ) SerialError
  close_frame capacity wire = and_next (redecode (length wire) mtu wire) λ decoded.
      let count = length decoded in
      let fcs = crc.digest (serial_revision ∷ count ∷ decoded) in
      let room = capacity - header_len - length wire in
      and_next (require (not (ltb 255 count)) body_exceeds_byte_count) λ _.
        and_next (write_fcs_byte room (fcs / 256)) λ msb.
          and_next (write_fcs_byte (room - length msb) (fcs % 256))
            λ lsb. ok (serial_revision ∷ count ∷ wire ++ (msb ++ (lsb ++ (end_flag ∷ []))))

  -- The writer's error, or the medium's.
  abbrev pub after_writer {ℓ} :
      {E : Type ℓ} → ℕ → Result (Unit {0}) E × EncodingEncoder → Result (List ℕ) (SerializeError E)
  after_writer capacity (err e, enc) = err (writer_error e)
  after_writer capacity (ok u, enc) = map_err medium_error (close_frame capacity enc.written)

  unfoldable pub serialize {ℓ} :
      {E : Type ℓ}
      → (EncodingEncoder → Result (Unit {0}) E × EncodingEncoder)
      → ℕ
      → Result (List ℕ) (SerializeError E)
  unfolding close_frame
  serialize writer capacity =
      if ltb capacity (header_len + max_trailer_wire)
      then err (medium_error buffer_too_small)
      else after_writer capacity
          (writer (record { written = []; capacity = capacity - max_trailer_wire - header_len }))

-- `position` of the end flag, and the bytes up to it.
unfoldable pub position : List ℕ → Option ℕ
position [] = none
position (b ∷ bs) =
    let later = position bs in
    if b == end_flag then some 0 else elim later [ some n ↦ some (suc n) | none ↦ none ]

unfoldable pub frame_complete : List ℕ → Option ℕ
frame_complete [] = none
frame_complete (b ∷ bs) =
    if b == end_flag
    then elim (position bs) [ some n ↦ some (1 + n + 1) | none ↦ none ]
    else elim (position (b ∷ bs)) [ some n ↦ some (0 + n + 1) | none ↦ none ]
