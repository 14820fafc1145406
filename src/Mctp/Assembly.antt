-- ===== src/Mctp/Assembly.antt =====
-- mctp-rs/src/mctp_packet_context.rs (deserialize_packet) and deserialize.rs: packets are assembled into
-- a message. The assembly buffer is its bytes by their indices and its length.
pub mod Buffer
pub mod Train
pub mod Leaving
use embedded_services.Base.{
  ℕ, zero, suc, ◌+◌, ◌-◌, ◌*◌, ◌/◌, ◌%◌, ◌≡◌, Bool, true, false, not, Option, none, some, List, [],
  ◌∷◌, Result, ok, err, map_err, length, ltb, ◌==◌, if◌then◌else◌, is_eq,
}
use embedded_services.Base.Exec.{Exec, ◌>>=◌, ◌>>◌, pure, fail, lift, modify}
use embedded_services.Base.Store.{write}
use embedded_services.Mctp.Encoding
use embedded_services.Mctp.Encoding.{
  BufferEncoding, DecodeError, premature_end, invalid_escape, EncodingDecoder, read_many,
}
use embedded_services.Mctp.Header.{
  EndpointId, EndpointId-discrete, next, TransportHeader, HeaderParser,
}

pub data ProtocolError : Type 0 where
  expected_start_of_message unexpected_start_of_message : ProtocolError
  message_tag_mismatch tag_owner_mismatch unexpected_packet_sequence_number : ℕ → ℕ → ProtocolError
  source_endpoint_id_mismatch : EndpointId → EndpointId → ProtocolError

-- The messages of HeaderParseError.
pub data HeaderError : Type 0 where
  packet_too_small invalid_escape_in_header invalid_transport_header : HeaderError
  length_under_4 assembly_buffer_overflow body_too_short invalid_escape_in_body : HeaderError
  no_message_type : HeaderError

-- The messages of SerializeError.
pub data SerializeMessage : Type 0 where
  header_not_encoded no_room_for_header no_room_for_body : SerializeMessage
  no_room_after_end_bit encoding_buffer_full : SerializeMessage

pub data PacketError (E : Type 0) : Type 0 where
  header_parse_error : HeaderError → PacketError E
  serialize_error : SerializeMessage → PacketError E
  protocol_error : ProtocolError → PacketError E
  medium_error : E → PacketError E

-- trait MctpMedium, as far as it receives: the frame F, the error E, the reply context R.
pub record Medium (F E R : Type 0) : Type 0 where
  pub encoding : BufferEncoding
  pub deserialize : List ℕ → Result (F × EncodingDecoder) E
  pub packet_size : F → ℕ
  pub reply_context : F → R

pub record AssemblingState : Type 0 where
  pub message_tag : ℕ
  pub tag_owner : ℕ
  pub source_endpoint_id : EndpointId
  pub packet_sequence_number : ℕ
  pub packet_assembly_buffer_index : ℕ

pub data AssemblyState : Type 0 where
  idle : AssemblyState
  receiving : AssemblingState → AssemblyState

pub record PacketContext : Type 0 where
  pub assembly_state : AssemblyState
  pub packet_assembly_buffer : ℕ → ℕ
  pub buffer_len : ℕ

pub record ReplyContext (R : Type 0) : Type 0 where
  pub destination_endpoint_id : EndpointId
  pub source_endpoint_id : EndpointId
  pub packet_sequence_number : ℕ
  pub message_tag : ℕ
  pub medium_context : R

pub record Message (R : Type 0) : Type 0 where
  pub reply_context : ReplyContext R
  pub integrity_check : ℕ
  pub message_type : ℕ
  pub rest : List ℕ
  pub message_integrity_check : Option ℕ

-- `u32::from_be_bytes`
abbrev pub from_be_bytes : List ℕ → ℕ
from_be_bytes (a ∷ b ∷ c ∷ d ∷ []) = ((a * 256 + b) * 256 + c) * 256 + d
from_be_bytes _ = 0

unfoldable pub refuse : AssemblingState → TransportHeader → Option ProtocolError
refuse s h =
    let expected = next s.packet_sequence_number in
    if not (h.start_of_message == 0)
    then some unexpected_start_of_message
    else if not (s.message_tag == h.message_tag)
    then some (message_tag_mismatch s.message_tag h.message_tag)
    else if not (s.tag_owner == h.tag_owner)
    then some (tag_owner_mismatch s.tag_owner h.tag_owner)
    else if not (is_eq EndpointId-discrete s.source_endpoint_id h.source_endpoint_id)
    then some (source_endpoint_id_mismatch s.source_endpoint_id h.source_endpoint_id)
    else if not (expected == h.packet_sequence_number)
    then some (unexpected_packet_sequence_number expected h.packet_sequence_number)
    else none

abbrev pub first_state : TransportHeader → AssemblingState
first_state h = record {
  message_tag = h.message_tag;
  tag_owner = h.tag_owner;
  source_endpoint_id = h.source_endpoint_id;
  packet_sequence_number = h.packet_sequence_number;
  packet_assembly_buffer_index = 0;
}

abbrev pub unless_refused :
    AssemblingState → Option ProtocolError → Result AssemblingState ProtocolError
unless_refused s (some e) = err e
unless_refused s none = ok s

-- The state that the packet goes on from.
unfoldable pub admit : AssemblyState → TransportHeader → Result AssemblingState ProtocolError
admit idle h = if h.start_of_message == 0 then err expected_start_of_message else ok (first_state h)
admit (receiving s) h = unless_refused s (refuse s h)

abbrev pub map_decode_err {ℓ} :
    {A : Type ℓ} → HeaderError → HeaderError → Result A DecodeError → Result A HeaderError
map_decode_err on_premature on_escape =
    map_err λ e. elim e [ premature_end ↦ on_premature | invalid_escape ↦ on_escape ]

unfoldable pub slice : ℕ → ℕ → (ℕ → ℕ) → List ℕ
slice zero i buf = []
slice (suc n) i buf = buf i ∷ slice n (i + 1) buf

-- parse_message_body: the first byte holds the integrity check bit and the type of the message.
unfoldable pub parse_message_body :
    {R : Type 0} → ReplyContext R → List ℕ → Result (Message R) HeaderError
parse_message_body c [] = err no_message_type
parse_message_body c (b ∷ bs) = ok (record {
  reply_context = c;
  integrity_check = b / 128 % 2 * 128;
  message_type = b % 128;
  rest = bs;
  message_integrity_check = none;
})

abbrev pub parsed_header :
    Option TransportHeader
    → EncodingDecoder
    → Result (TransportHeader × EncodingDecoder) HeaderError
parsed_header (some h) d = ok (h, d)
parsed_header none d = err invalid_transport_header

abbrev pub complete :
    {R : Type 0} → Result (Message R) HeaderError → Result (Option (Message R)) HeaderError
complete (ok m) = ok (some m)
complete (err e) = err e

module _ {F E R : Type 0} (medium : Medium F E R) (parser : HeaderParser) where
  abbrev pub Step : Type 0 → Type 0
  Step = Exec PacketContext (PacketError E)

  -- The four header bytes; the decoder goes on after them.
  abbrev pub header_bytes : EncodingDecoder → Result (List ℕ) HeaderError × EncodingDecoder
  header_bytes d =
      let r = read_many medium.encoding 4 d in
      (map_decode_err packet_too_small invalid_escape_in_header r.0, r.1)

  abbrev header_then :
      Result (List ℕ) HeaderError × EncodingDecoder
      → Result (TransportHeader × EncodingDecoder) HeaderError
  header_then (ok bs, d) = parsed_header (parser (from_be_bytes bs)) d
  header_then (err e, d) = err e

  unfoldable pub parse_transport_header :
      EncodingDecoder → Result (TransportHeader × EncodingDecoder) HeaderError
  parse_transport_header d = header_then (header_bytes d)

  abbrev pub copied :
      Result ℕ DecodeError × EncodingDecoder
      → ℕ
      → (EncodingDecoder → Step (Unit {0}))
      → Step (Unit {0})
  copied (ok b, d) i f s =
      f d (record s { packet_assembly_buffer = write s.packet_assembly_buffer i b })
  copied (err e, d) i f s =
      (map_err header_parse_error (map_decode_err body_too_short invalid_escape_in_body (err e)), s)

  -- `for i in 0..packet_size`
  unfoldable pub copy : ℕ → ℕ → EncodingDecoder → Step (Unit {0})
  copy zero i d s = (ok tt, s)
  copy (suc n) i d s = copied (Encoding.read medium.encoding d) i (copy n (i + 1)) s

  abbrev pub reply_of : F → TransportHeader → ReplyContext R
  reply_of f h = record {
    destination_endpoint_id = h.destination_endpoint_id;
    source_endpoint_id = h.source_endpoint_id;
    packet_sequence_number = h.packet_sequence_number;
    message_tag = h.message_tag;
    medium_context = medium.reply_context f;
  }

  -- The bytes are in the buffer: the message is complete, or more packets are to come.
  unfoldable pub finish : F → TransportHeader → AssemblingState → ℕ → Step (Option (Message R))
  finish f h st size s =
      let filled = st.packet_assembly_buffer_index + size in
      if h.end_of_message == 1
      then (
        map_err header_parse_error (
            complete (parse_message_body (reply_of f h) (slice filled 0 s.packet_assembly_buffer))),
        record s { assembly_state = idle },
      )
      else (
        ok none,
        record s {
          assembly_state = receiving (record st { packet_assembly_buffer_index = filled });
        },
      )

  unfoldable pub take_body :
      F → TransportHeader → EncodingDecoder → AssemblingState → Step (Option (Message R))
  take_body f h d st s =
      let size = medium.packet_size f - 4 in
      if ltb (medium.packet_size f) 4
      then (err (header_parse_error length_under_4), s)
      else if ltb s.buffer_len (st.packet_assembly_buffer_index + size)
      then (err (header_parse_error assembly_buffer_overflow), s)
      else (copy size st.packet_assembly_buffer_index d >> finish f h st size) s

  unfoldable pub take_packet : F → TransportHeader × EncodingDecoder → Step (Option (Message R))
  take_packet f hd s =
      (lift (map_err protocol_error (admit s.assembly_state hd.0)) >>= take_body f hd.0 hd.1) s

  unfoldable pub deserialize_packet : List ℕ → Step (Option (Message R))
  deserialize_packet packet = do
    fd ← lift (map_err medium_error (medium.deserialize packet))
    hd ← lift (map_err header_parse_error (parse_transport_header fd.1))
    take_packet fd.0 hd
