-- ===== src/Mctp/Tests.antt =====
-- Examples: a short body on the serial wire.
mod Packets
mod Sending
use embedded_services.Base.{
  ℕ, ◌+◌, ◌%◌, ◌<◌, ◌≤◌, ◌≡◌, refl, false, some, List, [], ◌∷◌, ◌++◌, ok, err, All, arith, ◌==◌,
}
use embedded_services.Mctp.Encoding.{
  buffer_full, end_flag, skip, serial_encoding, serial_wire_size_of, serial_read_byte,
  serial_write_byte, EncodingDecoder, write, write_all, read, read_many, wire_position,
  remaining_wire,
}
use embedded_services.Mctp.Encoding.Roundtrip.{stuff, stuff_all, read_many-write_all}
use embedded_services.Mctp.Serial.{
  Checksum, serial_revision, serialize, deserialize, frame_complete, redecode, unstuff, read_fcs,
  check_end, take, position,
}
use embedded_services.Mctp.Serial.Frames.{deserialize-serialize}
use embedded_services.Mctp.Serial.Complete.{frame_complete-serialize}

abbrev total : List ℕ → ℕ
total [] = 0
total (b ∷ bs) = b + total bs

abbrev checksum : Checksum
checksum = record { digest = λ bs. total bs % 65536 }

-- What an evaluation of the medium unfolds.
evaluation : Unit {0}
unfolding write write_all read read_many wire_position remaining_wire serial_encoding
    serial_wire_size_of serial_read_byte serial_write_byte skip serialize deserialize frame_complete
    redecode unstuff read_fcs check_end take position stuff stuff_all
evaluation = tt

abbrev body : List ℕ
body = 126 ∷ 125 ∷ 7 ∷ []

abbrev body_frame : List ℕ
body_frame = 1 ∷ 3 ∷ 125 ∷ 94 ∷ 125 ∷ 93 ∷ 7 ∷ 1 ∷ 6 ∷ 126 ∷ []

on_the_wire : serialize checksum (write_all serial_encoding body) 20 ≡ ok body_frame
unfolding evaluation
on_the_wire = refl

read_many-write_all_example :
    let r = write_all serial_encoding body (record { written = []; capacity = 5 }) in
    (5 < serial_wire_size_of body → r.0 ≡ err buffer_full)
    × (serial_wire_size_of body ≤ 5
        → (r.0 ≡ ok tt)
          × (wire_position r.1 ≡ serial_wire_size_of body)
          × All (λ b. (b == end_flag) ≡ false) r.1.written
          × (read_many serial_encoding 3 (record { rest = r.1.written ++ (126 ∷ []) })
              ≡ (ok body, record { rest = 126 ∷ [] })))
read_many-write_all_example = read_many-write_all body (126 ∷ []) 5

deserialize-serialize_example :
    (f : List ℕ) × (serialize checksum (write_all serial_encoding body) 20 ≡ ok f)
    × (d : EncodingDecoder) × (deserialize checksum f
        ≡ ok (record { revision = serial_revision; byte_count = 3; fcs = 262 }, d))
    × (read_many serial_encoding 3 d ≡ (ok body, record { rest = [] }))
unfolding evaluation
deserialize-serialize_example = deserialize-serialize checksum body 20 (omega arith, omega arith)

frame_complete-serialize_example : frame_complete body_frame ≡ some 10
unfolding evaluation
frame_complete-serialize_example =
    frame_complete-serialize checksum body 20 body_frame (omega arith, omega arith) refl
