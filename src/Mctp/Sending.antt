-- ===== src/Mctp/Sending.antt =====
-- mctp-rs/src/serialize.rs (SerializePacketState::next): a message is cut into packets. A medium is what
-- its `serialize` does before and after the writer that it is given; the macro that packs a header's bits
-- is a parameter.
pub mod Encodings
pub mod Chunk
pub mod Packet
pub mod Train
use embedded_services.Base.{
  ℕ, zero, suc, ◌+◌, ◌-◌, ◌/◌, ◌%◌, ◌≡◌, min, Bool, true, false, ◌&&◌, not, Option, none, some,
  List, [], ◌∷◌, Result, ok, err, map_err, ltb, ◌==◌, if◌then◌else◌,
}
use embedded_services.Base.Exec.{Exec, ◌>>=◌, ◌>>◌, lift}
use embedded_services.Mctp.Encoding.{
  BufferEncoding, EncodingEncoder, remaining_wire, write_all, skip,
}
use embedded_services.Mctp.Header.{next, TransportHeader}
use embedded_services.Mctp.Serial.{take}
use embedded_services.Mctp.Assembly.{
  SerializeMessage, header_not_encoded, no_room_for_header, no_room_for_body, no_room_after_end_bit,
  encoding_buffer_full, PacketError, serialize_error, medium_error, ReplyContext,
}

-- trait MctpMedium, as far as it sends: the room that it leaves the writer in a buffer, or its refusal,
-- and the packet around what was written.
pub record SendingMedium (E R : Type 0) : Type 0 where
  pub encoding : BufferEncoding
  pub max_message_body_size : ℕ
  pub room_in : ℕ → Result ℕ E
  pub close_frame : R → ℕ → List ℕ → Result (List ℕ) E

-- MctpTransportHeader::try_into::<u32>
abbrev pub HeaderWriter : Type 0
HeaderWriter = TransportHeader → Option ℕ

pub record SerializePacketState (R : Type 0) : Type 0 where
  pub reply_context : ReplyContext R
  pub current_packet_num : ℕ
  pub serialized_message_header : Bool
  pub message_buffer : List ℕ
  pub assembly_len : ℕ

abbrev pub is_empty : List ℕ → Bool
is_empty [] = true
is_empty (b ∷ bs) = false

-- `u32::to_be_bytes`
unfoldable pub to_be_bytes : ℕ → List ℕ
to_be_bytes n = n / 16777216 % 256 ∷ n / 65536 % 256 ∷ n / 256 % 256 ∷ n % 256 ∷ []

module _ (enc : BufferEncoding) where
  -- The walk over the message: the wire bytes consumed, and how many bytes of the message go in.
  unfoldable pub chunk_of : ℕ → ℕ → List ℕ → ℕ × ℕ
  chunk_of budget consumed [] = (consumed, 0)
  chunk_of budget consumed (b ∷ bs) =
      let cost = enc.wire_size_of (b ∷ []) in
      let rest = chunk_of budget (consumed + cost) bs in
      if ltb budget (consumed + cost) then (consumed, 0) else (rest.0, suc rest.1)

abbrev pub start_bit : ℕ → ℕ
start_bit n = if n == 0 then 1 else 0

abbrev pub to_bytes : {E : Type 0} → Option ℕ → Result (List ℕ) (PacketError E)
to_bytes (some n) = ok (to_be_bytes n)
to_bytes none = err (serialize_error header_not_encoded)

module _ {R : Type 0} where
  -- The header of a reply, which goes back from the endpoint that was asked.
  abbrev pub header_of : ReplyContext R → ℕ → ℕ → TransportHeader
  header_of c start eom = record {
    reserved = 0;
    header_version = 1;
    destination_endpoint_id = c.source_endpoint_id;
    source_endpoint_id = c.destination_endpoint_id;
    start_of_message = start;
    end_of_message = eom;
    packet_sequence_number = c.packet_sequence_number;
    tag_owner = 0;
    message_tag = c.message_tag;
  }

  -- `packet_sequence_number.inc()`
  abbrev pub inc_sequence : SerializePacketState R → SerializePacketState R
  inc_sequence s = record s {
    reply_context = record s.reply_context {
      packet_sequence_number = next s.reply_context.packet_sequence_number;
    };
  }

  abbrev pub drop_chunk : ℕ → SerializePacketState R → SerializePacketState R
  drop_chunk n s = record s { message_buffer = skip n s.message_buffer }

module _ {E R : Type 0} (medium : SendingMedium E R) (writer : HeaderWriter) where
  -- The writer's state: the encoder, and the state that it borrows.
  abbrev pub Writing : Type 0
  Writing = EncodingEncoder × SerializePacketState R

  abbrev pub Write : Type 0
  Write = Exec Writing (PacketError E) (Unit {0})

  abbrev pub header_bytes : ℕ → SerializePacketState R → Result (List ℕ) (PacketError E)
  header_bytes eom s =
      to_bytes (writer (header_of s.reply_context (start_bit s.current_packet_num) eom))

  abbrev pub put_bytes : List ℕ → Write
  put_bytes bs w =
      let r = write_all medium.encoding bs w.0 in
      (map_err (λ e. serialize_error encoding_buffer_full) r.0, (r.1, w.1))

  abbrev pub fitting : ℕ → ℕ → Result (List ℕ) (PacketError E) → Result (List ℕ) (PacketError E)
  fitting max_wire consumed (ok hb) =
      if ltb max_wire (medium.encoding.wire_size_of hb + consumed)
      then err (serialize_error no_room_after_end_bit)
      else ok hb
  fitting max_wire consumed (err e) = err e

  -- The header again, where the chunk is the last.
  unfoldable pub final_header :
      ℕ → ℕ → List ℕ → SerializePacketState R → Result (List ℕ) (PacketError E)
  final_header max_wire consumed hb s =
      if is_empty s.message_buffer then fitting max_wire consumed (header_bytes 1 s) else ok hb

  unfoldable pub write_chunk : ℕ → List ℕ → Write
  write_chunk max_wire hb w =
      let message = w.1.message_buffer in
      let cost = medium.encoding.wire_size_of hb in
      let chunk = chunk_of medium.encoding (max_wire - cost) 0 message in
      let after = drop_chunk chunk.1 w.1 in
      if ltb max_wire cost
      then (err (serialize_error no_room_for_header), w)
      else if chunk.1 == 0 && not (is_empty message)
      then (err (serialize_error no_room_for_body), w)
      else (lift (final_header max_wire chunk.0 hb after) >>= λ header.
            put_bytes header >> put_bytes (take chunk.1 message))
          (w.0, after)

  -- The closure that `next` hands the medium.
  unfoldable pub write_packet : Write
  write_packet w =
      let max_wire = min medium.max_message_body_size (remaining_wire w.0) in
      let s = inc_sequence w.1 in (lift (header_bytes 0 s) >>= write_chunk max_wire) (w.0, s)

  abbrev pub closed :
      R
      → ℕ
      → Result (Unit {0}) (PacketError E) × Writing
      → Result (List ℕ) (PacketError E) × SerializePacketState R
  closed c capacity (ok u, w) =
      (map_err medium_error (medium.close_frame c capacity w.0.written), w.1)
  closed c capacity (err e, w) = (err e, w.1)

  abbrev pub opened :
      R
      → ℕ
      → Result ℕ E
      → Write
      → SerializePacketState R
      → Result (List ℕ) (PacketError E) × SerializePacketState R
  opened c capacity (ok room) f s =
      closed c capacity (f (record { written = []; capacity = room }, s))
  opened c capacity (err e) f s = (err (medium_error e), s)

  -- MctpMedium::serialize
  unfoldable pub serialize :
      R
      → ℕ
      → Write
      → SerializePacketState R
      → Result (List ℕ) (PacketError E) × SerializePacketState R
  serialize c capacity f s = opened c capacity (medium.room_in capacity) f s

  abbrev pub counted :
      Result (List ℕ) (PacketError E) × SerializePacketState R
      → Option (Result (List ℕ) (PacketError E)) × SerializePacketState R
  counted (ok p, s) =
      (some (ok p), record s { current_packet_num = (s.current_packet_num + 1) % 256 })
  counted (err e, s) = (some (err e), s)

  -- SerializePacketState::next
  unfoldable pub next_packet :
      SerializePacketState R → Option (Result (List ℕ) (PacketError E)) × SerializePacketState R
  next_packet s =
      if is_empty s.message_buffer
      then (none, s)
      else counted (serialize s.reply_context.medium_context s.assembly_len write_packet s)

  abbrev pub collected :
      List ℕ
      → Result (List (List ℕ)) (PacketError E) × SerializePacketState R
      → Result (List (List ℕ)) (PacketError E) × SerializePacketState R
  collected p (ok ps, s) = (ok (p ∷ ps), s)
  collected p (err e, s) = (err e, s)

  abbrev pub sent_then :
      Option (Result (List ℕ) (PacketError E)) × SerializePacketState R
      → (SerializePacketState R → Result (List (List ℕ)) (PacketError E) × SerializePacketState R)
      → Result (List (List ℕ)) (PacketError E) × SerializePacketState R
  sent_then (none, s) f = (ok [], s)
  sent_then (some (ok p), s) f = collected p (f s)
  sent_then (some (err e), s) f = (err e, s)

  -- `while let Some(packet) = state.next()`: the packets that a caller gets. Every packet takes a byte of
  -- the message at least, so one more round than the message has bytes is enough.
  unfoldable pub send_all :
      ℕ → SerializePacketState R → Result (List (List ℕ)) (PacketError E) × SerializePacketState R
  send_all zero s = (ok [], s)
  send_all (suc fuel) s = sent_then (next_packet s) (send_all fuel)
