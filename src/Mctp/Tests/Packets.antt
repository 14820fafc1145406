-- ===== src/Mctp/Tests/Packets.antt =====
-- Examples: packets over a medium without frames, as in the documentation of mctp-rs.
use embedded_services.Base.{
  ℕ, ◌/◌, ◌%◌, ◌≡◌, refl, Option, none, some, List, [], ◌∷◌, ok, err, map_err, length, arith,
}
use embedded_services.Mctp.Encoding.{passthrough_encoding, read, read_many, skip}
use embedded_services.Mctp.Header
use embedded_services.Mctp.Header.{EndpointId, id, endpoint_of_bits, next, TransportHeader}
use embedded_services.Mctp.Assembly.{
  unexpected_start_of_message, unexpected_packet_sequence_number, header_parse_error,
  protocol_error, Medium, AssemblingState, idle, PacketContext, slice, refuse, first_state, admit,
  parse_message_body, complete, reply_of, parse_transport_header, copy, finish, take_body,
  take_packet, deserialize_packet,
}
use embedded_services.Mctp.Assembly.Train.{
  Continues, Carries, deserialize_packet-two, deserialize_packet-start, deserialize_packet-third,
}

abbrev bare : Medium ℕ (Unit {0}) (Unit {0})
bare = record {
  encoding = passthrough_encoding;
  deserialize = λ p. ok (length p, record { rest = p });
  packet_size = λ n. n;
  reply_context = λ n. tt;
}

abbrev with_endpoints : ℕ → Option EndpointId → Option EndpointId → Option TransportHeader
with_endpoints n (some d) (some s) = some (record {
  reserved = n / 268435456;
  header_version = n / 16777216 % 16;
  destination_endpoint_id = d;
  source_endpoint_id = s;
  start_of_message = n / 128 % 2;
  end_of_message = n / 64 % 2;
  packet_sequence_number = n / 16 % 4;
  tag_owner = n / 8 % 2;
  message_tag = n % 8;
})
with_endpoints n _ _ = none

unfoldable pub parser : ℕ → Option TransportHeader
parser n = with_endpoints n (endpoint_of_bits (n / 65536 % 256)) (endpoint_of_bits (n / 256 % 256))

-- What an evaluation of the context unfolds.
evaluation : Unit {0}
unfolding parser endpoint_of_bits passthrough_encoding read read_many skip parse_transport_header
    copy finish take_body take_packet deserialize_packet admit refuse next slice parse_message_body
    Header.EndpointId-discrete
evaluation = tt

abbrev packet : ℕ → List ℕ → List ℕ
packet flags body = 1 ∷ 9 ∷ 18 ∷ flags ∷ body

-- The header with tag 3, between the endpoints 18 and 9.
abbrev header : ℕ → ℕ → ℕ → TransportHeader
header som eom seq = record {
  reserved = 0;
  header_version = 1;
  destination_endpoint_id = id 9;
  source_endpoint_id = id 18;
  start_of_message = som;
  end_of_message = eom;
  packet_sequence_number = seq;
  tag_owner = 0;
  message_tag = 3;
}

abbrev first : List ℕ
first = packet 131 (126 ∷ 1 ∷ [])

abbrev middle : List ℕ
middle = packet 19 (2 ∷ [])

abbrev second : List ℕ
second = packet 83 (2 ∷ 3 ∷ [])

abbrev third : List ℕ
third = packet 99 (4 ∷ [])

abbrev again : List ℕ
again = packet 195 (126 ∷ [])

abbrev fresh : PacketContext
fresh = record { assembly_state = idle; packet_assembly_buffer = λ i. 0; buffer_len = 16 }

first_carries : Carries bare parser first (header 1 0 0) (126 ∷ 1 ∷ [])
unfolding evaluation
first_carries = record {
  frame = 6;
  start = record { rest = first };
  body = record { rest = 126 ∷ 1 ∷ [] };
  unpacks = refl;
  header = refl;
  size = refl;
  bytes = refl;
}

middle_carries : Carries bare parser middle (header 0 0 1) (2 ∷ [])
unfolding evaluation
middle_carries = record {
  frame = 5;
  start = record { rest = middle };
  body = record { rest = 2 ∷ [] };
  unpacks = refl;
  header = refl;
  size = refl;
  bytes = refl;
}

abbrev second_carries : Carries bare parser second (header 0 1 1) (2 ∷ 3 ∷ [])
unfolding evaluation
second_carries = record {
  frame = 6;
  start = record { rest = second };
  body = record { rest = 2 ∷ 3 ∷ [] };
  unpacks = refl;
  header = refl;
  size = refl;
  bytes = refl;
}

third_carries : Carries bare parser third (header 0 1 2) (4 ∷ [])
unfolding evaluation
third_carries = record {
  frame = 5;
  start = record { rest = third };
  body = record { rest = 4 ∷ [] };
  unpacks = refl;
  header = refl;
  size = refl;
  bytes = refl;
}

again_carries : Carries bare parser again (header 1 1 0) (126 ∷ [])
unfolding evaluation
again_carries = record {
  frame = 5;
  start = record { rest = again };
  body = record { rest = 126 ∷ [] };
  unpacks = refl;
  header = refl;
  size = refl;
  bytes = refl;
}

goes_on : (eom seq : ℕ) → Continues (first_state (header 1 0 0)) (header 0 eom seq)
goes_on eom seq = record { no_start = refl; tag = refl; owner = refl; source = refl }

deserialize_packet-two_example :
    let r1 = deserialize_packet bare parser first fresh in
    let r2 = deserialize_packet bare parser second r1.1 in
    (r1.0 ≡ ok none)
    × (r2.0
        ≡ map_err header_parse_error (
            complete
              (parse_message_body (reply_of bare parser 6 (header 0 1 1)) (126 ∷ 1 ∷ 2 ∷ 3 ∷ []))))
    × (r2.1.assembly_state ≡ idle)
unfolding evaluation
deserialize_packet-two_example =
    deserialize_packet-two bare parser first second (header 1 0 0) (header 0 1 1) (126 ∷ 1 ∷ [])
      (2 ∷ 3 ∷ []) fresh first_carries second_carries refl refl refl (goes_on 1 1) refl refl
      (omega arith)

abbrev opened : PacketContext
opened = (deserialize_packet bare parser first fresh).1

abbrev after_first : AssemblingState
after_first = record (first_state (header 1 0 0)) { packet_assembly_buffer_index = 2 }

start_refused :
    deserialize_packet bare parser again opened
    ≡ (err (protocol_error unexpected_start_of_message), opened)
unfolding evaluation
start_refused =
    deserialize_packet-start bare parser again (header 1 1 0) (126 ∷ []) opened after_first
      again_carries refl refl

stays : (eom seq : ℕ) → Continues after_first (header 0 eom seq)
stays eom seq = record { no_start = refl; tag = refl; owner = refl; source = refl }

deserialize_packet-third_example :
    let s2 = (deserialize_packet bare parser middle opened).1 in
    deserialize_packet bare parser third s2
    ≡ (err (protocol_error (unexpected_packet_sequence_number 1 2)), s2)
unfolding evaluation
deserialize_packet-third_example =
    deserialize_packet-third bare parser middle third (header 0 0 1) (header 0 1 2) (2 ∷ [])
      (4 ∷ []) (126 ∷ 1 ∷ []) opened after_first middle_carries third_carries refl refl
      (omega arith) (stays 0 1) refl refl (stays 1 2) refl
