-- ===== src/Mctp/Assembly/Train.antt =====
-- Messages in several packets.
use embedded_services.Base.{
  ℕ, ◌+◌, ◌-◌, ◌≤◌, ◌≡◌, refl, sym, ◌∙◌, ap, ◌≢◌, true, false, none, some, List, [], ◌++◌, ok, err,
  map_err, length, arith, ltb, ◌==◌, is_eq_iff,
}
use embedded_services.Mctp.Encoding.{EncodingDecoder, read_many}
use embedded_services.Mctp.Header.{EndpointId-discrete, next, TransportHeader, HeaderParser}
use embedded_services.Mctp.Assembly.{
  ProtocolError, unexpected_start_of_message, unexpected_packet_sequence_number, header_parse_error,
  protocol_error, Medium, AssemblingState, idle, receiving, PacketContext, refuse, first_state,
  admit, parse_message_body, complete, reply_of, parse_transport_header, finish, take_body,
  take_packet, deserialize_packet,
}
use embedded_services.Mctp.Assembly.Buffer.{
  write_bytes, slice-after_write, slice-write_bytes, copy_lem,
}

-- A packet that goes on with a message, its sequence number aside.
pub record Continues (st : AssemblingState) (h : TransportHeader) : Type 0 where
  pub no_start : h.start_of_message ≡ 0
  pub tag : st.message_tag ≡ h.message_tag
  pub owner : st.tag_owner ≡ h.tag_owner
  pub source : st.source_endpoint_id ≡ h.source_endpoint_id

refuse-none :
    (st : AssemblingState) (h : TransportHeader)
    → Continues st h
    → next st.packet_sequence_number ≡ h.packet_sequence_number
    → refuse st h ≡ none
unfolding refuse
refuse-none st h c e =
    let s = (is_eq_iff EndpointId-discrete st.source_endpoint_id h.source_endpoint_id).1 c.source in
    ground (arith, c.no_start, c.tag, c.owner, s, e)

refuse_sequence :
    (st : AssemblingState) (h : TransportHeader)
    → Continues st h
    → next st.packet_sequence_number ≢ h.packet_sequence_number
    → refuse st h
      ≡ some (
          unexpected_packet_sequence_number
            (next st.packet_sequence_number)
            h.packet_sequence_number)
unfolding refuse
refuse_sequence st h c e =
    let s = (is_eq_iff EndpointId-discrete st.source_endpoint_id h.source_endpoint_id).1 c.source in
    ground (arith, c.no_start, c.tag, c.owner, s, e)

next_ne : (n : ℕ) → next n ≢ next (next n)
unfolding next
next_ne n = ground arith

module _ {F E R : Type 0} (medium : Medium F E R) (parser : HeaderParser) where
  -- The medium finds a header and the bytes of a body in a packet.
  pub record Carries (packet : List ℕ) (h : TransportHeader) (chunk : List ℕ) : Type 0 where
    pub frame : F
    pub start : EncodingDecoder
    pub body : EncodingDecoder
    pub unpacks : medium.deserialize packet ≡ ok (frame, start)
    pub header : parse_transport_header medium parser start ≡ ok (h, body)
    pub size : medium.packet_size frame ≡ 4 + length chunk
    pub bytes : (read_many medium.encoding (length chunk) body).0 ≡ ok chunk

  refused :
      (p : List ℕ) (h : TransportHeader) (chunk : List ℕ) (s : PacketContext) (e : ProtocolError)
      → Carries p h chunk
      → admit s.assembly_state h ≡ err e
      → deserialize_packet medium parser p s ≡ (err (protocol_error e), s)
  unfolding deserialize_packet take_packet
  refused p h chunk s e c a = rw (c.unpacks, c.header, a) refl

  -- An admitted packet whose body fits is written after the bytes before it.
  taken :
      (p : List ℕ) (h : TransportHeader) (chunk acc : List ℕ) (s : PacketContext)
      (st : AssemblingState) (c : Carries p h chunk)
      → admit s.assembly_state h ≡ ok st
      → st.packet_assembly_buffer_index ≡ length acc
      → length acc + length chunk ≤ s.buffer_len
      → deserialize_packet medium parser p s
        ≡ finish medium parser c.frame h st (length chunk) (record s {
          packet_assembly_buffer = write_bytes chunk (length acc) s.packet_assembly_buffer;
        })
  unfolding deserialize_packet take_packet take_body
  taken p h chunk acc s st c a i f =
      let n : 4 + length chunk - 4 ≡ length chunk = omega arith in
      let k : ltb (4 + length chunk) 4 ≡ false = ground arith in
      let l : ltb s.buffer_len (length acc + length chunk) ≡ false = ground (arith, f) in
      rw
        (
          c.unpacks,
          c.header,
          a,
          c.size,
          n,
          k,
          i,
          l,
          copy_lem medium parser (length chunk) (length acc) c.body chunk s c.bytes,
        )
        refl

  -- The context after a packet that leaves the message open.
  abbrev open_context : AssemblingState → ℕ → List ℕ → PacketContext → PacketContext
  open_context st i chunk s = record s {
    packet_assembly_buffer = write_bytes chunk i s.packet_assembly_buffer;
    assembly_state = receiving (record st {
      packet_assembly_buffer_index = st.packet_assembly_buffer_index + length chunk;
    });
  }

  opened :
      (p : List ℕ) (h : TransportHeader) (chunk acc : List ℕ) (s : PacketContext)
      (st : AssemblingState)
      → Carries p h chunk
      → admit s.assembly_state h ≡ ok st
      → st.packet_assembly_buffer_index ≡ length acc
      → length acc + length chunk ≤ s.buffer_len
      → (h.end_of_message == 1) ≡ false
      → deserialize_packet medium parser p s ≡ (ok none, open_context st (length acc) chunk s)
  unfolding finish
  opened p h chunk acc s st c a i f e = rw (taken p h chunk acc s st c a i f, e) refl

  admit_first :
      (s : PacketContext) (h : TransportHeader)
      → s.assembly_state ≡ idle
      → (h.start_of_message == 0) ≡ false
      → admit s.assembly_state h ≡ ok (first_state h)
  unfolding admit
  admit_first s h i b = rw (i, b) refl

  admit-next :
      (st : AssemblingState) (h : TransportHeader)
      → Continues st h
      → next st.packet_sequence_number ≡ h.packet_sequence_number
      → admit (receiving st) h ≡ ok st
  unfolding admit
  admit-next st h c e = rw (refuse-none st h c e) refl

  -- A message in two packets whose bodies fit the assembly buffer is assembled from an idle context: the
  -- first packet yields nothing, the second the message whose bytes are the two bodies in order, and the
  -- context is idle again. The second packet must not start a message, must carry the first one's tag,
  -- tag owner and source, and the next sequence number.
  pub deserialize_packet-two :
      (p1 p2 : List ℕ) (h1 h2 : TransportHeader) (chunk1 chunk2 : List ℕ) (s : PacketContext)
      (c1 : Carries p1 h1 chunk1) (c2 : Carries p2 h2 chunk2)
      → s.assembly_state ≡ idle
      → (h1.start_of_message == 0) ≡ false
      → (h1.end_of_message == 1) ≡ false
      → Continues (first_state h1) h2
      → next h1.packet_sequence_number ≡ h2.packet_sequence_number
      → (h2.end_of_message == 1) ≡ true
      → length chunk1 + length chunk2 ≤ s.buffer_len
      → let r1 = deserialize_packet medium parser p1 s in
        let r2 = deserialize_packet medium parser p2 r1.1 in
        (r1.0 ≡ ok none)
        × (r2.0
            ≡ map_err header_parse_error (
                complete
                  (parse_message_body (reply_of medium parser c2.frame h2) (chunk1 ++ chunk2))))
        × (r2.1.assembly_state ≡ idle)
  unfolding finish
  deserialize_packet-two p1 p2 h1 h2 chunk1 chunk2 s c1 c2 i b e1 go q e2 f =
      let st = first_state h1 in
      let o = opened p1 h1 chunk1 [] s st c1 (admit_first s h1 i b) refl (omega (arith, f)) e1 in
      let s1 = open_context st 0 chunk1 s in
      let st1 : AssemblingState = record st { packet_assembly_buffer_index = 0 + length chunk1 } in
      let k : 0 + length chunk1 ≡ length chunk1 = omega arith in
      let t =
        taken p2 h2 chunk2 chunk1 s1 st1 c2
          (admit-next st1 h2
            (record { no_start = go.no_start; tag = go.tag; owner = go.owner; source = go.source })
            q)
          k f in
      let w =
        slice-after_write chunk1 chunk2 (write_bytes chunk1 0 s.packet_assembly_buffer)
          (slice-write_bytes chunk1 0 s.packet_assembly_buffer) in
      rw (o, t, e2, k, w) (refl, refl, refl)

  -- A context that assembles a message refuses every packet that starts one, and stays as it is.
  pub deserialize_packet-start :
      (p : List ℕ) (h : TransportHeader) (chunk : List ℕ) (s : PacketContext) (st : AssemblingState)
      → Carries p h chunk
      → s.assembly_state ≡ receiving st
      → (h.start_of_message == 0) ≡ false
      → deserialize_packet medium parser p s ≡ (err (protocol_error unexpected_start_of_message), s)
  unfolding admit refuse
  deserialize_packet-start p h chunk s st c r b =
      refused p h chunk s unexpected_start_of_message c (rw (r, b) refl)

  -- The third packet of a message is refused: once a packet in the middle has been taken, the packet with
  -- the sequence number after it is not the one expected, which still is the number after the first
  -- packet's, and the context stays as it is. All three agree on tag, tag owner and source.
  pub deserialize_packet-third :
      (p2 p3 : List ℕ) (h2 h3 : TransportHeader) (chunk2 chunk3 acc : List ℕ) (s : PacketContext)
      (st : AssemblingState)
      → Carries p2 h2 chunk2
      → Carries p3 h3 chunk3
      → s.assembly_state ≡ receiving st
      → st.packet_assembly_buffer_index ≡ length acc
      → length acc + length chunk2 ≤ s.buffer_len
      → Continues st h2
      → next st.packet_sequence_number ≡ h2.packet_sequence_number
      → (h2.end_of_message == 1) ≡ false
      → Continues st h3
      → next h2.packet_sequence_number ≡ h3.packet_sequence_number
      → let s2 = (deserialize_packet medium parser p2 s).1 in
        deserialize_packet medium parser p3 s2 ≡ (
          err (
              protocol_error (
                unexpected_packet_sequence_number h2.packet_sequence_number
                  h3.packet_sequence_number)),
          s2,
        )
  unfolding admit
  deserialize_packet-third p2 p3 h2 h3 chunk2 chunk3 acc s st c2 c3 r i f go2 q2 e2 go3 q3 =
      let a : admit s.assembly_state h2 ≡ ok st = rw (r) (admit-next st h2 go2 q2) in
      let o = opened p2 h2 chunk2 acc s st c2 a i f e2 in
      let s2 = open_context st (length acc) chunk2 s in
      let st2 : AssemblingState = record st {
        packet_assembly_buffer_index = st.packet_assembly_buffer_index + length chunk2;
      } in
      let ne : next st.packet_sequence_number ≢ h3.packet_sequence_number =
        λ e. next_ne st.packet_sequence_number (e ∙ sym q3 ∙ ap next (sym q2)) in
      let go : Continues st2 h3 = record {
        no_start = go3.no_start;
        tag = go3.tag;
        owner = go3.owner;
        source = go3.source;
      } in
      let x =
        unexpected_packet_sequence_number (next st.packet_sequence_number)
          h3.packet_sequence_number in
      let b : admit (receiving st2) h3 ≡ err x = rw (refuse_sequence st2 h3 go ne) refl in
      let y =
        unexpected_packet_sequence_number h2.packet_sequence_number h3.packet_sequence_number in
      let z : x ≡ y = rw q2 refl in rw (o, refused p3 h3 chunk3 s2 x c3 b, z) refl
