-- ===== src/Mctp/Tests/Sending.antt =====
-- Examples: messages over SMBus, with the layouts that the sources declare.
use embedded_services.Base.{
  ℕ, ◌+◌, ◌*◌, ◌/◌, ◌%◌, ◌^◌, ◌<◌, ◌≡◌, refl, Option, none, some, List, [], ◌∷◌, ◌++◌, ok, arith,
  ◌==◌, ◌&&◌, if◌then◌else◌,
}
use embedded_services.Mctp.Header.{next, id, endpoint_of_bits, bits_of_endpoint, TransportHeader}
use embedded_services.Mctp.Assembly.{ReplyContext, PacketContext, idle}
use embedded_services.Mctp.Serial.{take}
use embedded_services.Mctp.Encoding.{
  passthrough_encoding, skip, wire_position, remaining_wire, write, write_all,
}
use embedded_services.Mctp.Sending.{
  to_be_bytes, chunk_of, header_of, final_header, write_chunk, write_packet, serialize, next_packet,
  send_all, HeaderWriter,
}
use embedded_services.Mctp.Smbus
use embedded_services.Mctp.Sending.Packet.{sending, with_sequence, Sender}
use embedded_services.Mctp.Smbus.{
  SmbusReplyContext, SmbusHeader, SmbusCode, mctp, command_of_bits, bits_of_command, sending_medium,
  SmbusCommandCode, SmbusError, SmbusFrame, close_frame,
}
use embedded_services.Mctp.Smbus.Frames.{PacksHeaders, swapped, deserialize-close_frame}
use embedded_services.Mctp.Smbus.Link.{Transports, smbus_sender}
use embedded_services.Mctp.Smbus.Delivery.{IsReceived, deserialize_packet-send_all}
use embedded_services.Mctp.Sending.Train
use embedded_services.Mctp.Sending.Encodings.{wire_all}
use embedded_services.Mctp.Tests.Packets
use embedded_services.Mctp.Tests.Packets.{parser}

-- The bits of SmbusEspiMediumHeader.
unfoldable smbus_bits : SmbusHeader → ℕ
smbus_bits h =
    h.destination_slave_address % 2 ^ 7 * 2 ^ 25
    + bits_of_command h.command_code * 2 ^ 16
    + h.byte_count % 2 ^ 8 * 2 ^ 8
    + h.source_slave_address % 2 ^ 7 * 2
    + 1

abbrev smbus_fields : ℕ → Option SmbusCommandCode → Option SmbusHeader
smbus_fields n (some c) = some (record {
  destination_slave_address = n / 2 ^ 25;
  command_code = c;
  byte_count = n / 2 ^ 8 % 2 ^ 8;
  source_slave_address = n / 2 % 2 ^ 7;
})
smbus_fields n none = none

unfoldable smbus_of_bits : ℕ → Option SmbusHeader
smbus_of_bits n =
    if n / 2 ^ 24 % 2 == 0 && n % 2 == 1
    then smbus_fields n (command_of_bits (n / 2 ^ 16 % 2 ^ 8))
    else none

-- A sum in the place of the crate's checksum.
abbrev sum_of : List ℕ → ℕ
sum_of [] = 0
sum_of (b ∷ bs) = (b + sum_of bs) % 256

abbrev code : SmbusCode
code = record {
  header_of_bits = smbus_of_bits;
  bits_of_header = λ h. some (smbus_bits h);
  pec = sum_of;
}

command_roundtrip :
    (c : SmbusCommandCode)
    → (command_of_bits (bits_of_command c) ≡ some c) × (bits_of_command c ≡ 15)
unfolding command_of_bits bits_of_command
command_roundtrip mctp = (refl, refl)

unpacks :
    (d : ℕ) (c : SmbusCommandCode) (b s : ℕ)
    → d < 2 ^ 7
    → s < 2 ^ 7
    → b < 2 ^ 8
    → let h : SmbusHeader = record {
      destination_slave_address = d;
      command_code = c;
      byte_count = b;
      source_slave_address = s;
    } in
      smbus_of_bits (smbus_bits h) ≡ some h
unfolding smbus_bits smbus_of_bits command_of_bits bits_of_command
unpacks d mctp b s hd hs hb =
    let n = d % 2 ^ 7 * 2 ^ 25 + 15 * 2 ^ 16 + b % 2 ^ 8 * 2 ^ 8 + s % 2 ^ 7 * 2 + 1 in
    let e1 : n / 2 ^ 24 % 2 ≡ 0 = omega (arith, hd, hs, hb) in
    let e2 : n % 2 ≡ 1 = omega (arith, hd, hs, hb) in
    let e3 : n / 2 ^ 16 % 2 ^ 8 ≡ 15 = omega (arith, hd, hs, hb) in
    let e4 : n / 2 ^ 25 ≡ d = omega (arith, hd, hs, hb) in
    let e5 : n / 2 ^ 8 % 2 ^ 8 ≡ b = omega (arith, hd, hs, hb) in
    let e6 : n / 2 % 2 ^ 7 ≡ s = omega (arith, hd, hs, hb) in rw (e1, e2, e3, e4, e5, e6) refl

layout : PacksHeaders code
unfolding smbus_bits smbus_of_bits
layout = record {
  bits = smbus_bits;
  packs = λ h. refl;
  bounded = λ h. let k = (command_roundtrip h.command_code).1 in ground (arith, k);
  unpacks =
      λ h. unpacks h.destination_slave_address h.command_code h.byte_count h.source_slave_address;
  counts = λ h b. let k = (command_roundtrip h.command_code).1 in ground (arith, k, b);
}

-- The bits of MctpTransportHeader.
unfoldable transport_bits : TransportHeader → ℕ
transport_bits h =
    h.reserved % 16 * 2 ^ 28
    + h.header_version % 16 * 2 ^ 24
    + bits_of_endpoint h.destination_endpoint_id % 256 * 2 ^ 16
    + bits_of_endpoint h.source_endpoint_id % 256 * 2 ^ 8
    + h.start_of_message % 2 * 128
    + h.end_of_message % 2 * 64
    + h.packet_sequence_number % 4 * 16
    + h.tag_owner % 2 * 8
    + h.message_tag % 8

abbrev asked : ReplyContext SmbusReplyContext
asked = record {
  destination_endpoint_id = id 9;
  source_endpoint_id = id 18;
  packet_sequence_number = 0;
  message_tag = 3;
  medium_context = record { destination_slave_address = 32; source_slave_address = 16 };
}

parses :
    (start eom seq : ℕ)
    → start < 2
    → eom < 2
    → seq < 4
    → let h = header_of (with_sequence asked seq) start eom in parser (transport_bits h) ≡ some h
unfolding transport_bits bits_of_endpoint Packets.parser endpoint_of_bits
parses start eom seq s e q =
    let n = transport_bits (header_of (with_sequence asked seq) start eom) in
    let d : n / 65536 % 256 ≡ 18 = omega (arith, s, e, q) in
    let f : n / 256 % 256 ≡ 9 = omega (arith, s, e, q) in
    let r : n / 268435456 ≡ 0 = omega (arith, s, e, q) in
    let v : n / 16777216 % 16 ≡ 1 = omega (arith, s, e, q) in
    let s1 : n / 128 % 2 ≡ start = omega (arith, s, e, q) in
    let e1 : n / 64 % 2 ≡ eom = omega (arith, s, e, q) in
    let q1 : n / 16 % 4 ≡ seq = omega (arith, s, e, q) in
    let o : n / 8 % 2 ≡ 0 = omega (arith, s, e, q) in
    let t : n % 8 ≡ 3 = omega (arith, s, e, q) in rw (d, f, r, v, s1, e1, q1, o, t) refl

transports : Transports (λ h. some (transport_bits h)) parser asked transport_bits
unfolding transport_bits bits_of_endpoint
transports = record {
  packs = λ start eom seq s e q. refl;
  bounded = λ start eom seq s e q. omega (arith, s, e, q);
  parses = λ start eom seq s e q. parses start eom seq s e q;
}

-- Six bytes, of which three go into each packet of a buffer of twelve.
abbrev message : List ℕ
message = 126 ∷ 1 ∷ 2 ∷ 3 ∷ 4 ∷ 5 ∷ []

evaluation : Unit {0}
unfolding smbus_bits smbus_of_bits command_of_bits bits_of_command transport_bits bits_of_endpoint
    send_all next_packet serialize write_packet write_chunk final_header chunk_of to_be_bytes
    Smbus.room_in Smbus.close_frame write_all write remaining_wire wire_position
    passthrough_encoding skip take next
evaluation = tt

abbrev first : List ℕ
first = 32 ∷ 15 ∷ 7 ∷ 65 ∷ 1 ∷ 18 ∷ 9 ∷ 147 ∷ 126 ∷ 1 ∷ 2 ∷ 167 ∷ []

abbrev second : List ℕ
second = 32 ∷ 15 ∷ 7 ∷ 65 ∷ 1 ∷ 18 ∷ 9 ∷ 99 ∷ 3 ∷ 4 ∷ 5 ∷ 2 ∷ []

abbrev writer : HeaderWriter
writer h = some (transport_bits h)

sent :
    (send_all (sending_medium code) writer 6 (sending asked 12 0 0 message)).0
    ≡ ok (first ∷ second ∷ [])
unfolding evaluation
sent = refl

abbrev receiver : PacketContext
receiver = record { assembly_state = idle; packet_assembly_buffer = λ i. 0; buffer_len = 8 }

deserialize_packet-send_all_example :
    IsReceived code layout writer parser asked transport_bits transports 0 message first second
      receiver
deserialize_packet-send_all_example =
    deserialize_packet-send_all code layout writer parser asked transport_bits transports 12
      (omega arith) 6 0 message first second receiver (omega arith, omega arith) (omega arith)
      (omega arith) sent refl (omega arith)

abbrev twelve : Sender SmbusError SmbusReplyContext
twelve = smbus_sender code layout writer parser asked transport_bits transports 12 (omega arith)

room_for_all : Train.HasRoom twelve message
unfolding wire_all
room_for_all =
    (omega arith, (omega arith, (omega arith, (omega arith, (omega arith, (omega arith, tt))))))

send_all-Carries_example :
    let r = send_all twelve.medium twelve.writer 6 (sending twelve.c twelve.capacity 0 0 message) in
    (ps : List (List ℕ)) × (r.0 ≡ ok ps)
    × (r.1.message_buffer ≡ [])
    × Train.Carries twelve 0 0 message ps
send_all-Carries_example = Train.send_all-Carries twelve 6 0 0 message room_for_all (omega arith)

framed :
    close_frame code asked.medium_context 8 (5 ∷ 126 ∷ [])
    ≡ ok (32 ∷ 15 ∷ 2 ∷ 65 ∷ 5 ∷ 126 ∷ 245 ∷ [])
unfolding evaluation
framed = refl

deserialize-close_frame_example :
    let p : List ℕ = 32 ∷ 15 ∷ 2 ∷ 65 ∷ 5 ∷ 126 ∷ 245 ∷ [] in
    (f : SmbusFrame) × (Smbus.deserialize code p ≡ ok (f, record { rest = 5 ∷ 126 ∷ [] }))
    × (Smbus.packet_size f ≡ 2)
    × (Smbus.reply_context f ≡ swapped code layout asked.medium_context)
    × (p ≡ take 6 p ++ (code.pec (take 6 p) ∷ []))
    × (f.pec ≡ code.pec (take 6 p))
deserialize-close_frame_example =
    deserialize-close_frame code layout asked.medium_context 8 (5 ∷ 126 ∷ [])
      (32 ∷ 15 ∷ 2 ∷ 65 ∷ 5 ∷ 126 ∷ 245 ∷ []) (omega arith) (omega arith) (omega arith) framed
