-- ===== src/Mctp/Sending/Packet.antt =====
-- One packet of a message, where the buffer and the medium have room for a header and a byte.
use embedded_services.Base.{
  ℕ, ◌+◌, ◌-◌, ◌%◌, ◌≤◌, ◌<◌, ◌≡◌, refl, sym, ap, false, none, some, List, [], ◌∷◌, ◌++◌, ok, min,
  length, length-append, arith, ltb, ◌==◌,
}
use embedded_services.Mctp.Encoding.{skip, wire_position, remaining_wire}
use embedded_services.Mctp.Header.{next, TransportHeader}
use embedded_services.Mctp.Serial.{take}
use embedded_services.Mctp.Assembly.{ReplyContext}
use embedded_services.Mctp.Sending.{
  SendingMedium, HeaderWriter, SerializePacketState, to_be_bytes, chunk_of, header_of, start_bit,
  final_header, write_chunk, write_packet, serialize, next_packet,
}
use embedded_services.Mctp.Sending.Encodings.{
  wire_all, Stuffs, Frames, wire_all-append, wire_all_one, write_all-wire_all,
}
use embedded_services.Mctp.Sending.Chunk.{chunk_of-fits, chunk_of-pos}

abbrev pub end_bit : List ℕ → ℕ
end_bit [] = 1
end_bit (b ∷ bs) = 0

abbrev pub with_sequence : {R : Type 0} → ReplyContext R → ℕ → ReplyContext R
with_sequence c seq = record c { packet_sequence_number = seq }

-- A state that sends the rest of a message.
abbrev pub sending : {R : Type 0} → ReplyContext R → ℕ → ℕ → ℕ → List ℕ → SerializePacketState R
sending c capacity seq n message = record {
  reply_context = with_sequence c seq;
  current_packet_num = n;
  serialized_message_header = false;
  message_buffer = message;
  assembly_len = capacity;
}

-- The headers of replies in a context have their bits, and take at most `cost` bytes on the wire; the end
-- bit makes none longer.
pub record Packs {R : Type 0} (writer : HeaderWriter) (wire : ℕ → List ℕ) (c : ReplyContext R)
    (bits : TransportHeader → ℕ) (cost : ℕ) : Type 0 where
  pub packs :
      (start eom seq : ℕ)
      → start < 2
      → eom < 2
      → seq < 4
      → writer (header_of (with_sequence c seq) start eom)
        ≡ some (bits (header_of (with_sequence c seq) start eom))
  pub size :
      (start seq : ℕ)
      → start < 2
      → seq < 4
      → length (wire_all wire (to_be_bytes (bits (header_of (with_sequence c seq) start 0)))) ≤ cost
  pub end_size :
      (start seq : ℕ)
      → start < 2
      → seq < 4
      → length (wire_all wire (to_be_bytes (bits (header_of (with_sequence c seq) start 1))))
        ≤ length (wire_all wire (to_be_bytes (bits (header_of (with_sequence c seq) start 0))))

pub next-lt : (n : ℕ) → next n < 4
unfolding next
next-lt n = omega arith

pub start_bit-lt : (n : ℕ) → start_bit n < 2
start_bit-lt n = ground arith

-- What sends a reply: a medium over an encoding, a buffer, and how headers are packed.
pub record Sender (E R : Type 0) : Type 0 where
  pub medium : SendingMedium E R
  pub writer : HeaderWriter
  pub wire : ℕ → List ℕ
  pub law : Stuffs medium.encoding wire
  pub capacity : ℕ
  pub room : ℕ
  pub frame : R → List ℕ → List ℕ
  pub frames : Frames medium wire capacity room frame
  pub c : ReplyContext R
  pub bits : TransportHeader → ℕ
  pub cost : ℕ
  pub packs : Packs writer wire c bits cost

module _ {E R : Type 0} (t : Sender E R) where
  abbrev pub max_wire : ℕ
  max_wire = min t.medium.max_message_body_size t.room

  abbrev pub header_at : ℕ → ℕ → ℕ → List ℕ
  header_at seq n eom = to_be_bytes (t.bits (header_of (with_sequence t.c seq) (start_bit n) eom))

  abbrev pub wired : List ℕ → ℕ
  wired bs = length (wire_all t.wire bs)

  -- How many bytes of the message go into the next packet.
  abbrev pub taken : ℕ → ℕ → List ℕ → ℕ
  taken seq n message =
      (chunk_of t.medium.encoding
        (max_wire - t.medium.encoding.wire_size_of (header_at (next seq) n 0)) 0 message).1

  final_header_lem :
      (seq n consumed : ℕ) (rest : List ℕ)
      → wired (header_at (next seq) n 0) + consumed ≤ max_wire
      → final_header t.medium t.writer max_wire consumed
          (header_at (next seq) n 0)
          (sending t.c t.capacity (next seq) n rest)
        ≡ ok (header_at (next seq) n (end_bit rest))
  unfolding final_header
  final_header_lem seq n consumed [] h =
      let e = t.packs.end_size (start_bit n) (next seq) (start_bit-lt n) (next-lt seq) in
      let z = t.law.sizes (header_at (next seq) n 1) in
      let k : ltb max_wire (wired (header_at (next seq) n 1) + consumed) ≡ false =
        ground (arith, h, e) in
      rw
        (
          t.packs.packs (start_bit n) 1 (next seq) (start_bit-lt n) (omega arith) (next-lt seq),
          z,
          k,
        )
        refl
  final_header_lem seq n consumed (b ∷ bs) h = refl

  header_le :
      (seq n : ℕ) (rest : List ℕ)
      → wired (header_at (next seq) n (end_bit rest)) ≤ wired (header_at (next seq) n 0)
  header_le seq n [] = t.packs.end_size (start_bit n) (next seq) (start_bit-lt n) (next-lt seq)
  header_le seq n (b ∷ bs) = omega arith

  -- The packet: its header, and the bytes of the message that go in.
  abbrev pub packet_of : ℕ → ℕ → List ℕ → List ℕ
  packet_of seq n message =
      let k = taken seq n message in
      t.frame t.c.medium_context
        (header_at (next seq) n (end_bit (skip k message)) ++ take k message)

  -- A byte at least goes in, and no more than there are.
  pub taken_bounds :
      (seq n b : ℕ) (bs : List ℕ)
      → t.cost + wired (b ∷ []) ≤ max_wire
      → (1 ≤ taken seq n (b ∷ bs)) × (taken seq n (b ∷ bs) ≤ length (b ∷ bs))
  taken_bounds seq n b bs h =
      let hb = header_at (next seq) n 0 in
      let budget = max_wire - t.medium.encoding.wire_size_of hb in
      let z = t.law.sizes hb in
      let size = t.packs.size (start_bit n) (next seq) (start_bit-lt n) (next-lt seq) in
      let o = ap length (wire_all_one t.wire b) in
      (
        chunk_of-pos t.medium.encoding t.wire t.law budget b bs (omega (arith, h, z, size, o)),
        (chunk_of-fits t.medium.encoding t.wire t.law budget 0 (b ∷ bs) (omega arith)).2,
      )

  abbrev pub content_of : ℕ → ℕ → List ℕ → List ℕ
  content_of seq n message =
      let k = taken seq n message in
      header_at (next seq) n (end_bit (skip k message)) ++ take k message

  -- The content of a packet keeps the limits of the medium.
  pub content_fits :
      (seq n b : ℕ) (bs : List ℕ)
      → t.cost + wired (b ∷ []) ≤ max_wire
      → wired (content_of seq n (b ∷ bs)) ≤ max_wire
  content_fits seq n b bs h =
      let message = b ∷ bs in
      let hb = header_at (next seq) n 0 in
      let budget = max_wire - t.medium.encoding.wire_size_of hb in
      let chunk = chunk_of t.medium.encoding budget 0 message in
      let head = header_at (next seq) n (end_bit (skip chunk.1 message)) in
      let body = take chunk.1 message in
      let f = chunk_of-fits t.medium.encoding t.wire t.law budget 0 message (omega arith) in
      let size = t.packs.size (start_bit n) (next seq) (start_bit-lt n) (next-lt seq) in
      let i = length-append (wire_all t.wire head) (wire_all t.wire body) in
      let j = ap length (wire_all-append t.wire head body) in
      let l = header_le seq n (skip chunk.1 message) in
      omega (arith, j, i, l, size, h, f.0, f.1, t.law.sizes hb)

  pub next_packet-packet_of :
      (seq n b : ℕ) (bs : List ℕ)
      → t.cost + wired (b ∷ []) ≤ max_wire
      → let message = b ∷ bs in
        let k = taken seq n message in
        next_packet t.medium t.writer (sending t.c t.capacity seq n message) ≡ (
          some (ok (packet_of seq n message)),
          sending t.c t.capacity (next seq) ((n + 1) % 256) (skip k message),
        )
  unfolding next_packet serialize write_packet write_chunk remaining_wire wire_position
  next_packet-packet_of seq n b bs h =
      let message = b ∷ bs in
      let hb = header_at (next seq) n 0 in
      let budget = max_wire - t.medium.encoding.wire_size_of hb in
      let chunk = chunk_of t.medium.encoding budget 0 message in
      let z = t.law.sizes hb in
      let size = t.packs.size (start_bit n) (next seq) (start_bit-lt n) (next-lt seq) in
      let f = chunk_of-fits t.medium.encoding t.wire t.law budget 0 message (omega arith) in
      let p = (taken_bounds seq n b bs h).0 in
      let k : ltb max_wire (t.medium.encoding.wire_size_of hb) ≡ false =
        ground (arith, h, z, size) in
      let q : (chunk.1 == 0) ≡ false = ground (arith, p) in
      let m : t.room - 0 ≡ t.room = omega arith in
      let last =
        final_header_lem seq n chunk.0 (skip chunk.1 message) (omega (arith, f.1, z, size, h)) in
      let head = header_at (next seq) n (end_bit (skip chunk.1 message)) in
      let body = take chunk.1 message in
      let l = header_le seq n (skip chunk.1 message) in
      let w1 =
        write_all-wire_all t.medium.encoding t.wire t.law head [] t.room
          (omega (arith, l, size, h)) in
      let w2 =
        write_all-wire_all t.medium.encoding t.wire t.law body (wire_all t.wire head) t.room
          (omega (arith, l, size, h, f.0, f.1, z)) in
      let j = wire_all-append t.wire head body in
      let x = t.frames.closes t.c.medium_context (head ++ body) (content_fits seq n b bs h) in
      rw
        (
          t.frames.opens,
          t.packs.packs (start_bit n) 0 (next seq) (start_bit-lt n) (omega arith) (next-lt seq),
          m,
          k,
          q,
          last,
          w1,
          w2,
          sym j,
          x,
        )
        refl

  pub next_packet_done :
      (seq n : ℕ)
      → next_packet t.medium t.writer (sending t.c t.capacity seq n [])
        ≡ (none, sending t.c t.capacity seq n [])
  unfolding next_packet
  next_packet_done seq n = refl
