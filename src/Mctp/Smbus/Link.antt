-- ===== src/Mctp/Smbus/Link.antt =====
-- The packets that SerializePacketState sends over SMBus, as a packet context at the other end reads them.
use embedded_services.Base.{
  ℕ, ◌+◌, ◌-◌, ◌^◌, ◌≤◌, ◌<◌, ◌≡◌, refl, ap, ◌∙◌, subst, false, some, List, [], ◌∷◌, ◌++◌, ok,
  length, arith, ltb,
}
use embedded_services.Mctp.Encoding.{passthrough_encoding, skip, read, read_many}
use embedded_services.Mctp.Encoding.Roundtrip.{append_nil}
use embedded_services.Mctp.Header.{TransportHeader, HeaderParser}
use embedded_services.Mctp.Assembly.{ReplyContext, parse_transport_header}
use embedded_services.Mctp.Assembly.Train.{Carries}
use embedded_services.Mctp.Sending.{HeaderWriter, to_be_bytes, header_of}
use embedded_services.Mctp.Sending.Encodings.{
  wire_all, Frames, bare, wire_all-bare, passthrough_encoding-Stuffs,
}
use embedded_services.Mctp.Sending.Packet.{with_sequence, Packs, Sender}
use embedded_services.Mctp.Smbus.{
  SmbusReplyContext, SmbusError, SmbusCode, room_in, sending_medium, receiving_medium,
}
use embedded_services.Mctp.Smbus.Frames.{
  PacksHeaders, frame_of, close_frame-frame_of, swapped, deserialize-close_frame,
  from_be_bytes-to_be_bytes,
}

-- What is relied on in the packed transport headers of a context: each is a u32 and comes back.
pub record Transports {R : Type 0} (writer : HeaderWriter) (parser : HeaderParser)
    (c : ReplyContext R) (bits : TransportHeader → ℕ) : Type 0 where
  pub packs :
      (start eom seq : ℕ)
      → start < 2
      → eom < 2
      → seq < 4
      → writer (header_of (with_sequence c seq) start eom)
        ≡ some (bits (header_of (with_sequence c seq) start eom))
  pub bounded :
      (start eom seq : ℕ)
      → start < 2
      → eom < 2
      → seq < 4
      → bits (header_of (with_sequence c seq) start eom) < 2 ^ 32
  pub parses :
      (start eom seq : ℕ)
      → start < 2
      → eom < 2
      → seq < 4
      → parser (bits (header_of (with_sequence c seq) start eom))
        ≡ some (header_of (with_sequence c seq) start eom)

read_many-passthrough :
    (bs rest : List ℕ)
    → read_many passthrough_encoding (length bs) (record { rest = bs ++ rest })
      ≡ (ok bs, record { rest = rest })
unfolding read_many read passthrough_encoding skip
read_many-passthrough [] rest = refl
read_many-passthrough (b ∷ bs) rest = rw (read_many-passthrough bs rest) refl

pub wired_bare : (bs : List ℕ) → length (wire_all bare bs) ≡ length bs
wired_bare bs = ap length (wire_all-bare bs)

four_bytes : (n : ℕ) → length (wire_all bare (to_be_bytes n)) ≤ 4
unfolding to_be_bytes
four_bytes n = omega (arith, wired_bare (to_be_bytes n))

pub Packs-Transports :
    {R : Type 0} (writer : HeaderWriter) (parser : HeaderParser) (c : ReplyContext R)
    (bits : TransportHeader → ℕ)
    → Transports writer parser c bits
    → Packs writer bare c bits 4
unfolding to_be_bytes
Packs-Transports writer parser c bits l = record {
  packs = l.packs;
  size = λ start seq s q. four_bytes (bits (header_of (with_sequence c seq) start 0));
  end_size = λ start seq s q. omega (
    arith,
    wired_bare (to_be_bytes (bits (header_of (with_sequence c seq) start 0))),
    wired_bare (to_be_bytes (bits (header_of (with_sequence c seq) start 1))),
  );
}

module _ (code : SmbusCode) (law : PacksHeaders code) where
  pub sending_medium-Frames :
      (capacity : ℕ)
      → 5 ≤ capacity
      → Frames (sending_medium code) bare capacity (capacity - 5) (frame_of code law)
  unfolding room_in
  sending_medium-Frames capacity h =
      let k : ltb capacity 5 ≡ false = ground (arith, h) in
      let m : capacity - 1 - 4 ≡ capacity - 5 = omega arith in
      record {
        opens = rw (k, m) refl;
        closes = λ c bs l. rw (wire_all-bare bs) (close_frame-frame_of code law c capacity bs);
      }

module _ (code : SmbusCode) (law : PacksHeaders code) (writer : HeaderWriter)
    (parser : HeaderParser) (c : ReplyContext SmbusReplyContext) (bits : TransportHeader → ℕ)
    (l : Transports writer parser c bits) where
  abbrev pub smbus_sender : (capacity : ℕ) → 5 ≤ capacity → Sender SmbusError SmbusReplyContext
  smbus_sender capacity h = record {
    medium = sending_medium code;
    writer = writer;
    wire = bare;
    law = passthrough_encoding-Stuffs;
    capacity = capacity;
    room = capacity - 5;
    frame = frame_of code law;
    frames = sending_medium-Frames code law capacity h;
    c = c;
    bits = bits;
    cost = 4;
    packs = Packs-Transports writer parser c bits l;
  }

  -- The two addresses have 7 bits.
  abbrev pub HasAddresses : Type 0
  HasAddresses =
      (c.medium_context.destination_slave_address < 2 ^ 7)
      × (c.medium_context.source_slave_address < 2 ^ 7)

  parse_header-sent :
      (start eom seq : ℕ) (chunk : List ℕ)
      → start < 2
      → eom < 2
      → seq < 4
      → let h = header_of (with_sequence c seq) start eom in
        parse_transport_header
          (receiving_medium code)
          parser
          (record { rest = to_be_bytes (bits h) ++ chunk })
        ≡ ok (h, record { rest = chunk })
  unfolding parse_transport_header read_many read passthrough_encoding to_be_bytes
  parse_header-sent start eom seq chunk s e q =
      let h = header_of (with_sequence c seq) start eom in
      rw
        (
          read_many-passthrough (to_be_bytes (bits h)) chunk,
          from_be_bytes-to_be_bytes (bits h) (l.bounded start eom seq s e q),
          l.parses start eom seq s e q,
        )
        refl

  -- A packet that was sent is one that a packet context can take.
  pub frame-Carries :
      (start eom seq : ℕ) (chunk : List ℕ)
      → HasAddresses
      → start < 2
      → eom < 2
      → seq < 4
      → length chunk ≤ 251
      → let h = header_of (with_sequence c seq) start eom in
        (k : Carries
          (receiving_medium code)
          parser
          (frame_of code law c.medium_context (to_be_bytes (bits h) ++ chunk))
          h
          chunk)
        × ((receiving_medium code).reply_context k.frame ≡ swapped code law c.medium_context)
  unfolding to_be_bytes
  frame-Carries start eom seq chunk a s e q m =
      let h = header_of (with_sequence c seq) start eom in
      let body = to_be_bytes (bits h) ++ chunk in
      let n : length body ≡ 4 + length chunk = omega arith in
      let x =
        deserialize-close_frame code law c.medium_context 0 body
          (frame_of code law c.medium_context body) a.0 a.1 (omega (arith, n, m))
          (close_frame-frame_of code law c.medium_context 0 body) in
      (
        record {
          frame = x.0;
          start = record { rest = body };
          body = record { rest = chunk };
          unpacks = x.1;
          header = parse_header-sent start eom seq chunk s e q;
          size = x.2 ∙ n;
          bytes =
              ap (λ r. r.0)
                (subst
                  (λ w.
                    read_many passthrough_encoding (length chunk) (record { rest = w })
                    ≡ (ok chunk, record { rest = [] }))
                  (append_nil chunk) (read_many-passthrough chunk []));
        },
        x.3,
      )
