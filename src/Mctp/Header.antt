-- ===== src/Mctp/Header.antt =====
-- The transport header of mctp-rs/src/mctp_transport_header.rs and its fields: endpoint_id.rs,
-- mctp_sequence_number.rs and mctp_message_tag.rs. The bits of a header are read by the macro of the crate
-- `bit_register`, a parameter.
use embedded_services.Base.{
  ℕ, ◌+◌, ◌%◌, ◌≡◌, Bool, true, false, Option, none, some, ltb, ◌==◌, if◌then◌else◌, ℕ_discrete,
}

pub data EndpointId : Type 0 where
  null broadcast : EndpointId
  id : ℕ → EndpointId

unfoldable pub EndpointId-discrete : Discrete EndpointId
EndpointId-discrete = hlevel embedded_services.Base.ℕ_discrete

unfoldable pub endpoint_of_bits : ℕ → Option EndpointId
endpoint_of_bits n =
    if n == 0
    then some null
    else if n == 255
    then some broadcast
    else if ltb n 8
    then none
    else if ltb n 255
    then some (id n)
    else none

unfoldable pub bits_of_endpoint : EndpointId → ℕ
bits_of_endpoint null = 0
bits_of_endpoint broadcast = 255
bits_of_endpoint (id n) = n

abbrev pub max_sequence_number : ℕ
max_sequence_number = 4

unfoldable pub next : ℕ → ℕ
next n = (n + 1) % 256 % max_sequence_number

pub record TransportHeader : Type 0 where
  pub reserved : ℕ
  pub header_version : ℕ
  pub destination_endpoint_id : EndpointId
  pub source_endpoint_id : EndpointId
  pub start_of_message : ℕ
  pub end_of_message : ℕ
  pub packet_sequence_number : ℕ
  pub tag_owner : ℕ
  pub message_tag : ℕ

-- MctpTransportHeader::try_from
abbrev pub HeaderParser : Type 0
HeaderParser = ℕ → Option TransportHeader
