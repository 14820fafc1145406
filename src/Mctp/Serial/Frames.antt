-- ===== src/Mctp/Serial/Frames.antt =====
-- A serial frame: what is serialized is what is deserialized, and where a frame ends.
use embedded_services.Base.{
  ℕ, zero, suc, ◌+◌, ◌-◌, ◌*◌, ◌/◌, ◌%◌, ◌≤◌, ◌≡◌, refl, ap, subst, true, false, ◌&&◌, List, [],
  ◌∷◌, ◌++◌, ok, length, length-append, arith, ltb, ◌==◌,
}
use embedded_services.Mctp.Encoding.{
  end_flag, serial_encoding, serial_wire_size_of, EncodingDecoder, write_all, read_many,
}
use embedded_services.Mctp.Encoding.Roundtrip.{
  stuff, stuff_all, append_nil, append_assoc, skip-append, length-stuff_all,
  serial_write_byte-stuff, serial_read_byte-stuff, write_all-stuff, read_many-stuff,
}
use embedded_services.Mctp.Serial.{
  mtu, serial_revision, Checksum, unstuff, read_fcs, check_end, take, deserialize_body,
  deserialize_header, long_packet, deserialize, redecode, close_frame, serialize,
}

not_bare : (b : ℕ) → (b == end_flag && length (stuff b) == 1) ≡ false
unfolding stuff
not_bare b = ground arith

length-stuff_cons :
    (b : ℕ) (bs : List ℕ) → length (stuff_all (b ∷ bs)) ≡ length (stuff b) + length (stuff_all bs)
unfolding stuff_all
length-stuff_cons b bs = length-append (stuff b) (stuff_all bs)

stuff_pos : (b : ℕ) → (1 ≤ length (stuff b)) × (length (stuff b) ≤ 2)
unfolding stuff
stuff_pos b = ground arith

unstuff-stuff :
    (bs rest : List ℕ) → unstuff (length bs) (stuff_all bs ++ rest) ≡ ok (bs, length (stuff_all bs))
unfolding unstuff stuff_all
unstuff-stuff [] rest = refl
unstuff-stuff (b ∷ bs) rest =
    rw
      (
        append_assoc (stuff b) (stuff_all bs) rest,
        serial_read_byte-stuff b (stuff_all bs ++ rest),
        not_bare b,
        skip-append (stuff b) (stuff_all bs ++ rest),
        unstuff-stuff bs rest,
        length-append (stuff b) (stuff_all bs),
      )
      refl

read_fcs-stuff :
    (m l : ℕ) (rest : List ℕ) → read_fcs (stuff m ++ (stuff l ++ rest)) ≡ ok ((m, l), rest)
unfolding read_fcs
read_fcs-stuff m l rest =
    rw
      (
        serial_read_byte-stuff m (stuff l ++ rest),
        skip-append (stuff m) (stuff l ++ rest),
        serial_read_byte-stuff l rest,
        skip-append (stuff l) rest,
      )
      refl

take-append : (xs ys : List ℕ) → take (length xs) (xs ++ ys) ≡ xs
unfolding take
take-append [] ys = refl
take-append (x ∷ xs) ys = ap (λ l. x ∷ l) (take-append xs ys)

redecode-stuff :
    (bs : List ℕ) (fuel room : ℕ)
    → length (stuff_all bs) ≤ fuel
    → length bs ≤ room
    → redecode fuel room (stuff_all bs) ≡ ok bs
unfolding redecode stuff_all
redecode-stuff [] zero room f r = refl
redecode-stuff [] (suc fuel) room f r = refl
redecode-stuff (b ∷ bs) zero room f r =
    absurd (omega (arith, f, length-stuff_cons b bs, (stuff_pos b).0))
redecode-stuff (b ∷ bs) (suc fuel) room f r =
    let p = stuff_pos b in
    let k = length-stuff_cons b bs in
    let n : (length (stuff_all (b ∷ bs)) == 0) ≡ false = ground (arith, k, p.0) in
    let z : (room == 0) ≡ false = ground (arith, r) in
    rw
      (
        n,
        serial_read_byte-stuff b (stuff_all bs),
        z,
        skip-append (stuff b) (stuff_all bs),
        redecode-stuff bs fuel (room - 1) (omega (arith, f, k, p.0)) (omega (arith, r)),
      )
      refl

module _ (crc : Checksum) where
  abbrev pub fcs_of : List ℕ → ℕ
  fcs_of bs = crc.digest (serial_revision ∷ length bs ∷ bs)

  -- The frame of a body.
  abbrev pub frame_of : List ℕ → List ℕ
  frame_of bs =
      serial_revision ∷ length bs ∷ stuff_all bs
      ++ (stuff (fcs_of bs / 256) ++ (stuff (fcs_of bs % 256) ++ (end_flag ∷ [])))

  -- What a buffer for the frame must hold: the trailer is counted at its largest.
  abbrev pub Fits : List ℕ → ℕ → Type 0
  Fits bs capacity = (length bs ≤ mtu) × (serial_wire_size_of bs + 7 ≤ capacity)

  close_frame-frame_of :
      (bs : List ℕ) (capacity : ℕ)
      → Fits bs capacity
      → close_frame crc capacity (stuff_all bs) ≡ ok (frame_of bs)
  unfolding close_frame
  close_frame-frame_of bs capacity h =
      let k = length-stuff_all bs in
      let room = capacity - 2 - length (stuff_all bs) in
      let m = fcs_of bs / 256 in
      let l = fcs_of bs % 256 in
      let c : ltb 255 (length bs) ≡ false = ground (arith, h.0) in
      rw
        (
          redecode-stuff bs (length (stuff_all bs)) mtu (omega arith) h.0,
          c,
          serial_write_byte-stuff room m (omega (arith, h.1, k, (stuff_pos m).1)),
          serial_write_byte-stuff (room - length (stuff m)) l
              (omega (arith, h.1, k, (stuff_pos m).1, (stuff_pos l).1)),
        )
        refl

  pub serialize-frame_of :
      (bs : List ℕ) (capacity : ℕ)
      → Fits bs capacity
      → serialize crc (write_all serial_encoding bs) capacity ≡ ok (frame_of bs)
  unfolding serialize
  serialize-frame_of bs capacity h =
      let c : ltb capacity 7 ≡ false = ground (arith, h.1) in
      rw
        (
          c,
          write_all-stuff bs [] (capacity - 5 - 2) (omega (arith, h.1)),
          close_frame-frame_of bs capacity h,
        )
        refl

  deserialize-frame_of :
      (bs : List ℕ)
      → length bs ≤ mtu
      → deserialize crc (frame_of bs)
        ≡ ok (
          record { revision = serial_revision; byte_count = length bs; fcs = fcs_of bs },
          record { rest = stuff_all bs },
        )
  unfolding deserialize long_packet deserialize_header deserialize_body check_end
  deserialize-frame_of bs h =
      let f = fcs_of bs in
      let m = f / 256 in
      let l = f % 256 in
      let tail = stuff m ++ (stuff l ++ (end_flag ∷ [])) in
      let n = length-append (stuff_all bs) tail in
      let o = length-append (stuff m) (stuff l ++ (end_flag ∷ [])) in
      let p = length-append (stuff l) (end_flag ∷ []) in
      let long : ltb (length (frame_of bs)) 5 ≡ false =
        ground (arith, n, o, p, (stuff_pos m).0, (stuff_pos l).0) in
      let c : ltb mtu (length bs) ≡ false = ground (arith, h) in
      let e : m * 256 + l ≡ f = omega arith in
      let q : (f == f) ≡ true = ground arith in
      rw
        (
          long,
          c,
          unstuff-stuff bs tail,
          skip-append (stuff_all bs) tail,
          read_fcs-stuff m l (end_flag ∷ []),
          e,
          q,
          take-append (stuff_all bs) tail,
        )
        refl

  -- A body of at most 251 bytes is serialized into any buffer that holds its size on the wire and seven
  -- bytes more, and the frame is deserialized to the number of its bytes, their checksum, and a decoder
  -- that reads exactly the body.
  pub deserialize-serialize :
      (bs : List ℕ) (capacity : ℕ)
      → Fits bs capacity
      → (f : List ℕ) × (serialize crc (write_all serial_encoding bs) capacity ≡ ok f)
        × (d : EncodingDecoder) × (deserialize crc f
            ≡ ok
                (record { revision = serial_revision; byte_count = length bs; fcs = fcs_of bs }, d))
        × (read_many serial_encoding (length bs) d ≡ (ok bs, record { rest = [] }))
  deserialize-serialize bs capacity h = (
    frame_of bs,
    serialize-frame_of bs capacity h,
    record { rest = stuff_all bs },
    deserialize-frame_of bs h.0,
    subst
        (λ w.
          read_many serial_encoding (length bs) (record { rest = w })
          ≡ (ok bs, record { rest = [] }))
        (append_nil (stuff_all bs)) (read_many-stuff bs []),
  )
