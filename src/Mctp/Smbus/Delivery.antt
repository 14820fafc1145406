-- ===== src/Mctp/Smbus/Delivery.antt =====
-- A message that goes over SMBus: what SerializePacketState sends is what a packet context at the other
-- end assembles.
use embedded_services.Base.{
  ℕ, ◌+◌, ◌≤◌, ◌≡◌, refl, sym, ap, ◌∙◌, subst, none, List, [], ◌∷◌, ◌++◌, ok, ok-injective, map_err,
  length, length-append, arith,
}
use embedded_services.Mctp.Encoding.Roundtrip.{append_nil}
use embedded_services.Mctp.Header.{next, TransportHeader, HeaderParser}
use embedded_services.Mctp.Assembly.{
  ReplyContext, PacketContext, idle, header_parse_error, complete, parse_message_body,
  deserialize_packet, first_state,
}
use embedded_services.Mctp.Assembly.Train.{Continues, deserialize_packet-two}
use embedded_services.Mctp.Sending.{HeaderWriter, to_be_bytes, header_of, send_all}
use embedded_services.Mctp.Sending.Packet.{
  end_bit, with_sequence, sending, Sender, max_wire, header_at, wired, next-lt,
}
use embedded_services.Mctp.Sending.Train
use embedded_services.Mctp.Smbus.{
  SmbusReplyContext, SmbusError, SmbusCode, sending_medium, receiving_medium,
}
use embedded_services.Mctp.Smbus.Frames.{PacksHeaders, frame_of, swapped}
use embedded_services.Mctp.Smbus.Link.{
  Transports, wired_bare, smbus_sender, HasAddresses, frame-Carries,
}

module _ (code : SmbusCode) (law : PacksHeaders code) (writer : HeaderWriter)
    (parser : HeaderParser) (c : ReplyContext SmbusReplyContext) (bits : TransportHeader → ℕ)
    (l : Transports writer parser c bits) where
  -- The context of the reply as the receiver has it: the addresses are exchanged, and the endpoints are
  -- those of the packet.
  abbrev pub turned : ℕ → ReplyContext SmbusReplyContext
  turned seq = record {
    destination_endpoint_id = c.source_endpoint_id;
    source_endpoint_id = c.destination_endpoint_id;
    packet_sequence_number = seq;
    message_tag = c.message_tag;
    medium_context = swapped code law c.medium_context;
  }

  abbrev pub packet_at : ℕ → ℕ → ℕ → List ℕ → List ℕ
  packet_at seq start eom chunk =
      frame_of code law c.medium_context
        (to_be_bytes (bits (header_of (with_sequence c seq) start eom)) ++ chunk)

  -- What a receiver makes of two packets.
  abbrev pub IsReceived : ℕ → List ℕ → List ℕ → List ℕ → PacketContext → Type 0
  IsReceived seq message p1 p2 s =
      let r1 = deserialize_packet (receiving_medium code) parser p1 s in
      let r2 = deserialize_packet (receiving_medium code) parser p2 r1.1 in
      (r1.0 ≡ ok none)
      × (r2.0
          ≡ map_err header_parse_error
              (complete (parse_message_body (turned (next (next seq))) message)))
      × (r2.1.assembly_state ≡ idle)

  received_chunks :
      (seq : ℕ) (chunk1 chunk2 : List ℕ) (s : PacketContext)
      → HasAddresses code law writer parser c bits l
      → length chunk1 ≤ 251
      → length chunk2 ≤ 251
      → s.assembly_state ≡ idle
      → length chunk1 + length chunk2 ≤ s.buffer_len
      → IsReceived seq
          (chunk1 ++ chunk2)
          (packet_at (next seq) 1 0 chunk1)
          (packet_at (next (next seq)) 0 1 chunk2)
          s
  received_chunks seq chunk1 chunk2 s a m1 m2 i f =
      let h1 = header_of (with_sequence c (next seq)) 1 0 in
      let h2 = header_of (with_sequence c (next (next seq))) 0 1 in
      let k1 =
        frame-Carries code law writer parser c bits l 1 0 (next seq) chunk1 a (omega arith)
          (omega arith) (next-lt seq) m1 in
      let k2 =
        frame-Carries code law writer parser c bits l 0 1 (next (next seq)) chunk2 a (omega arith)
          (omega arith) (next-lt (next seq)) m2 in
      let go : Continues (first_state h1) h2 = record {
        no_start = refl;
        tag = refl;
        owner = refl;
        source = refl;
      } in
      let r =
        deserialize_packet-two (receiving_medium code) parser (packet_at (next seq) 1 0 chunk1)
          (packet_at (next (next seq)) 0 1 chunk2) h1 h2 chunk1 chunk2 s k1.0 k2.0 i refl refl go
          refl refl f in
      (
        r.0,
        r.1
            ∙ ap
                (λ m. map_err header_parse_error (
                  complete (
                    parse_message_body (record (turned (next (next seq))) { medium_context = m })
                      (chunk1 ++ chunk2))))
                k2.1,
        r.2,
      )

  module _ (capacity : ℕ) (large : 5 ≤ capacity) where
    abbrev sender : Sender SmbusError SmbusReplyContext
    sender = smbus_sender code law writer parser c bits l capacity large

    all_fit : 10 ≤ capacity → (bs : List ℕ) → Train.HasRoom sender bs
    all_fit h [] = tt
    all_fit h (b ∷ bs) = (omega (arith, h, wired_bare (b ∷ [])), all_fit h bs)

    chunk_le :
        (n : ℕ) (chunk : List ℕ)
        → wired sender (to_be_bytes n ++ chunk) ≤ max_wire sender
        → length chunk ≤ 251
    unfolding to_be_bytes
    chunk_le n chunk h = omega (arith, h, wired_bare (to_be_bytes n ++ chunk))

    received :
        (seq : ℕ) (message chunk rest p1 p2 : List ℕ) (s : PacketContext)
        → HasAddresses code law writer parser c bits l
        → message ≡ chunk ++ rest
        → wired sender (header_at sender (next seq) 0 (end_bit rest) ++ chunk) ≤ max_wire sender
        → p1 ≡ packet_at (next seq) 1 (end_bit rest) chunk
        → Train.Carries sender (next seq) 1 rest (p2 ∷ [])
        → s.assembly_state ≡ idle
        → length message ≤ s.buffer_len
        → IsReceived seq message p1 p2 s
    received seq message chunk [] p1 p2 s a m w e k i f =
        absurd (omega (arith, k.3, ap length k.2, length-append k.0 k.1))
    received seq message chunk (x ∷ xs) p1 p2 s a m w e k i f =
        let z = k.2 ∙ ap (λ r. k.0 ++ r) k.6 ∙ append_nil k.0 in
        let y : message ≡ chunk ++ k.0 = m ∙ ap (λ r. chunk ++ r) z in
        let e2 : p2 ≡ packet_at (next (next seq)) 0 1 k.0 =
          k.5 ∙ ap (λ r. packet_at (next (next seq)) 0 (end_bit r) k.0) k.6 in
        rw (y, e, e2)
          (received_chunks seq chunk k.0 s a (chunk_le _ chunk w) (chunk_le _ k.0 k.4) i
            (omega (arith, f, ap length y, length-append chunk k.0)))

    -- A message that is sent over SMBus in two packets is assembled by an idle receiver whose buffer holds
    -- it: the first packet yields nothing, the second the whole message with the sender's context turned
    -- round, and the receiver is idle again. The sender's buffer has 10 bytes at least, and the addresses
    -- have 7 bits.
    pub deserialize_packet-send_all :
        (fuel seq : ℕ) (message p1 p2 : List ℕ) (s : PacketContext)
        → HasAddresses code law writer parser c bits l
        → 10 ≤ capacity
        → length message ≤ fuel
        → (send_all (sending_medium code) writer fuel (sending c capacity seq 0 message)).0
          ≡ ok (p1 ∷ p2 ∷ [])
        → s.assembly_state ≡ idle
        → length message ≤ s.buffer_len
        → IsReceived seq message p1 p2 s
    deserialize_packet-send_all fuel seq message p1 p2 s a h n e i f =
        let t = sender in
        let r = Train.send_all-Carries t fuel seq 0 message (all_fit h message) n in
        let g = ok-injective (sym r.1 ∙ e) in
        let k = subst (Train.Carries t seq 0 message) g r.3 in
        received seq message k.0 k.1 p1 p2 s a k.2 k.4 k.5 k.6 i f
