-- ===== src/Mctp/Encoding.antt =====
-- mctp-rs/src/buffer_encoding.rs, and SerialEncoding of mctp-rs/src/medium/serial.rs: how payload bytes
-- stand on the wire. A mutable buffer is what has been written to it and the room that is left.
pub mod Roundtrip
use embedded_services.Base.{
  ℕ, zero, suc, ◌+◌, ◌-◌, ◌≤◌, ◌<◌, ◌≡◌, Bool, true, false, ◌||◌, List, [], ◌∷◌, ◌++◌, Result, ok,
  err, length, ltb, ◌==◌, if◌then◌else◌,
}

pub data EncodeError : Type 0 where
  buffer_full : EncodeError

pub data DecodeError : Type 0 where
  premature_end invalid_escape : DecodeError

-- The bytes 0x7E, 0x7D, 0x5E and 0x5D.
abbrev pub end_flag : ℕ
end_flag = 126

abbrev pub escape : ℕ
escape = 125

abbrev pub escaped_flag : ℕ
escaped_flag = 94

abbrev pub escaped_escape : ℕ
escaped_escape = 93

-- `&buf[n..]`
unfoldable pub skip : ℕ → List ℕ → List ℕ
skip zero bs = bs
skip (suc n) [] = []
skip (suc n) (b ∷ bs) = skip n bs

-- trait BufferEncoding: the bytes written for a byte where `room` bytes are left, the byte read at the
-- head of a buffer and how many bytes it took, and the size on the wire.
pub record BufferEncoding : Type 0 where
  pub write_byte : ℕ → ℕ → Result (List ℕ) EncodeError
  pub read_byte : List ℕ → Result (ℕ × ℕ) DecodeError
  pub wire_size_of : List ℕ → ℕ

abbrev passthrough_read : List ℕ → Result (ℕ × ℕ) DecodeError
passthrough_read [] = err premature_end
passthrough_read (b ∷ bs) = ok (b, 1)

unfoldable pub passthrough_encoding : BufferEncoding
passthrough_encoding = record {
  write_byte = λ room b. if ltb room 1 then err buffer_full else ok (b ∷ []);
  read_byte = passthrough_read;
  wire_size_of = length;
}

unfoldable pub serial_write_byte : ℕ → ℕ → Result (List ℕ) EncodeError
serial_write_byte room b =
    if b == end_flag
    then if ltb room 2 then err buffer_full else ok (escape ∷ escaped_flag ∷ [])
    else if b == escape
    then if ltb room 2 then err buffer_full else ok (escape ∷ escaped_escape ∷ [])
    else if ltb room 1
    then err buffer_full
    else ok (b ∷ [])

read_escaped : List ℕ → Result (ℕ × ℕ) DecodeError
read_escaped [] = err premature_end
read_escaped (b ∷ bs) =
    if b == escaped_flag
    then ok (end_flag, 2)
    else if b == escaped_escape
    then ok (escape, 2)
    else err invalid_escape

unfoldable pub serial_read_byte : List ℕ → Result (ℕ × ℕ) DecodeError
unfolding read_escaped
serial_read_byte [] = err premature_end
serial_read_byte (b ∷ bs) = if b == escape then read_escaped bs else ok (b, 1)

unfoldable pub serial_wire_size_of : List ℕ → ℕ
serial_wire_size_of [] = 0
serial_wire_size_of (b ∷ bs) =
    (if b == end_flag || b == escape then 2 else 1) + serial_wire_size_of bs

unfoldable pub serial_encoding : BufferEncoding
serial_encoding = record {
  write_byte = serial_write_byte;
  read_byte = serial_read_byte;
  wire_size_of = serial_wire_size_of;
}

-- EncodingEncoder: what has been written, and the size of the buffer.
pub record EncodingEncoder : Type 0 where
  pub written : List ℕ
  pub capacity : ℕ

-- EncodingDecoder: what is left to read.
pub record EncodingDecoder : Type 0 where
  pub rest : List ℕ

unfoldable pub wire_position : EncodingEncoder → ℕ
wire_position e = length e.written

unfoldable pub remaining_wire : EncodingEncoder → ℕ
unfolding wire_position
remaining_wire e = e.capacity - wire_position e

abbrev pub appended :
    Result (List ℕ) EncodeError → EncodingEncoder → Result (Unit {0}) EncodeError × EncodingEncoder
appended (ok bs) e = (ok tt, record e { written = e.written ++ bs })
appended (err x) e = (err x, e)

abbrev pub continue_with :
    Result (Unit {0}) EncodeError × EncodingEncoder
    → (EncodingEncoder → Result (Unit {0}) EncodeError × EncodingEncoder)
    → Result (Unit {0}) EncodeError × EncodingEncoder
continue_with (ok u, e) f = f e
continue_with (err x, e) f = (err x, e)

abbrev pub advanced :
    Result (ℕ × ℕ) DecodeError → EncodingDecoder → Result ℕ DecodeError × EncodingDecoder
advanced (ok r) d = (ok r.0, record { rest = skip r.1 d.rest })
advanced (err x) d = (err x, d)

-- Reading bytes one after the other.
abbrev pub collect :
    ℕ
    → Result (List ℕ) DecodeError × EncodingDecoder
    → Result (List ℕ) DecodeError × EncodingDecoder
collect b (ok bs, d) = (ok (b ∷ bs), d)
collect b (err x, d) = (err x, d)

abbrev pub read_on :
    Result ℕ DecodeError × EncodingDecoder
    → (EncodingDecoder → Result (List ℕ) DecodeError × EncodingDecoder)
    → Result (List ℕ) DecodeError × EncodingDecoder
read_on (ok b, d) f = collect b (f d)
read_on (err x, d) f = (err x, d)

module _ (enc : BufferEncoding) where
  unfoldable pub write : ℕ → EncodingEncoder → Result (Unit {0}) EncodeError × EncodingEncoder
  write b e = appended (enc.write_byte (remaining_wire e) b) e

  unfoldable pub write_all :
      List ℕ → EncodingEncoder → Result (Unit {0}) EncodeError × EncodingEncoder
  write_all [] e = (ok tt, e)
  write_all (b ∷ bs) e = continue_with (write b e) (write_all bs)

  unfoldable pub read : EncodingDecoder → Result ℕ DecodeError × EncodingDecoder
  read d = advanced (enc.read_byte d.rest) d

  unfoldable pub read_many : ℕ → EncodingDecoder → Result (List ℕ) DecodeError × EncodingDecoder
  read_many zero d = (ok [], d)
  read_many (suc n) d = read_on (read d) (read_many n)
