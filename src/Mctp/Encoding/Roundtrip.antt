-- ===== src/Mctp/Encoding/Roundtrip.antt =====
-- What the serial encoding writes is what it reads.
use embedded_services.Base.{
  dec_le, ℕ, ◌+◌, ◌-◌, ◌≤◌, ◌<◌, ◌≡◌, refl, ap, false, List, [], ◌∷◌, ◌++◌, ok, err, length,
  length-append, All, arith, ◌==◌, if◌then◌else◌,
}
use embedded_services.Mctp.Encoding.{
  buffer_full, end_flag, escape, escaped_flag, escaped_escape, skip, serial_write_byte,
  read_escaped, serial_read_byte, serial_wire_size_of, serial_encoding, wire_position,
  remaining_wire, write, write_all, read, read_many,
}

-- The bytes on the wire for one byte and for many.
unfoldable pub stuff : ℕ → List ℕ
stuff b =
    if b == end_flag
    then escape ∷ escaped_flag ∷ []
    else if b == escape
    then escape ∷ escaped_escape ∷ []
    else b ∷ []

unfoldable pub stuff_all : List ℕ → List ℕ
stuff_all [] = []
stuff_all (b ∷ bs) = stuff b ++ stuff_all bs

pub append_nil : (xs : List ℕ) → xs ++ [] ≡ xs
append_nil [] = refl
append_nil (x ∷ xs) = ap (λ ys. x ∷ ys) (append_nil xs)

pub append_assoc : (xs ys zs : List ℕ) → (xs ++ ys) ++ zs ≡ xs ++ (ys ++ zs)
append_assoc [] ys zs = refl
append_assoc (x ∷ xs) ys zs = ap (λ l. x ∷ l) (append_assoc xs ys zs)

pub skip-append : (xs ys : List ℕ) → skip (length xs) (xs ++ ys) ≡ ys
unfolding skip
skip-append [] ys = refl
skip-append (x ∷ xs) ys = skip-append xs ys

pub length-stuff_all : (bs : List ℕ) → length (stuff_all bs) ≡ serial_wire_size_of bs
unfolding stuff_all stuff serial_wire_size_of
length-stuff_all [] = refl
length-stuff_all (b ∷ bs) =
    ground (arith, length-append (stuff b) (stuff_all bs), length-stuff_all bs)

pub serial_write_byte-stuff :
    (room b : ℕ) → length (stuff b) ≤ room → serial_write_byte room b ≡ ok (stuff b)
unfolding serial_write_byte stuff
serial_write_byte-stuff room b h = ground arith

serial_write_byte-full :
    (room b : ℕ) → room < length (stuff b) → serial_write_byte room b ≡ err buffer_full
unfolding serial_write_byte stuff
serial_write_byte-full room b h = ground arith

pub serial_read_byte-stuff :
    (b : ℕ) (rest : List ℕ) → serial_read_byte (stuff b ++ rest) ≡ ok (b, length (stuff b))
unfolding serial_read_byte read_escaped stuff
serial_read_byte-stuff b rest = ground arith

-- Room for a byte and more is room for the byte, and for more after it.
room_split :
    (b : ℕ) (bs : List ℕ) (w : List ℕ) (c : ℕ)
    → length w + serial_wire_size_of (b ∷ bs) ≤ c
    → (length (stuff b) ≤ c - length w) × (length (w ++ stuff b) + serial_wire_size_of bs ≤ c)
unfolding serial_wire_size_of stuff
room_split b bs w c h = ground (arith, length-append w (stuff b))

pub write_all-stuff :
    (bs w : List ℕ) (c : ℕ)
    → length w + serial_wire_size_of bs ≤ c
    → write_all serial_encoding bs (record { written = w; capacity = c })
      ≡ (ok tt, record { written = w ++ stuff_all bs; capacity = c })
unfolding write_all write stuff_all serial_encoding remaining_wire wire_position
write_all-stuff [] w c h = rw (append_nil w) refl
write_all-stuff (b ∷ bs) w c h =
    let r = room_split b bs w c h in
    rw
      (
        serial_write_byte-stuff (c - length w) b r.0,
        write_all-stuff bs (w ++ stuff b) c r.1,
        append_assoc w (stuff b) (stuff_all bs),
      )
      refl

no_room_split :
    (b : ℕ) (bs w : List ℕ) (c : ℕ)
    → length w ≤ c
    → c < length w + serial_wire_size_of (b ∷ bs)
    → length (stuff b) ≤ c - length w
    → (length (w ++ stuff b) ≤ c) × (c < length (w ++ stuff b) + serial_wire_size_of bs)
unfolding serial_wire_size_of stuff
no_room_split b bs w c k h r = ground (arith, length-append w (stuff b))

pub write_all-full :
    (bs w : List ℕ) (c : ℕ)
    → length w ≤ c
    → c < length w + serial_wire_size_of bs
    → (write_all serial_encoding bs (record { written = w; capacity = c })).0 ≡ err buffer_full
unfolding write_all write serial_encoding remaining_wire wire_position serial_wire_size_of
write_all-full [] w c k h = absurd (omega (arith, k, h))
write_all-full (b ∷ bs) w c k h = elim (dec_le (length (stuff b)) (c - length w)) [
  | yes r ↦
      let n = no_room_split b bs w c k h r in
      rw (serial_write_byte-stuff (c - length w) b r) (write_all-full bs (w ++ stuff b) c n.0 n.1)
  | no r ↦ rw (serial_write_byte-full (c - length w) b (omega (arith, r))) refl
]

pub read_many-stuff :
    (bs rest : List ℕ)
    → read_many serial_encoding (length bs) (record { rest = stuff_all bs ++ rest })
      ≡ (ok bs, record { rest = rest })
unfolding read_many read stuff_all serial_encoding
read_many-stuff [] rest = refl
read_many-stuff (b ∷ bs) rest =
    rw
      (
        append_assoc (stuff b) (stuff_all bs) rest,
        serial_read_byte-stuff b (stuff_all bs ++ rest),
        skip-append (stuff b) (stuff_all bs ++ rest),
        read_many-stuff bs rest,
      )
      refl

-- No byte on the wire is the end flag.
pub stuff_all-no_flag : (bs : List ℕ) → All (λ b. (b == end_flag) ≡ false) (stuff_all bs)
unfolding stuff_all stuff
stuff_all-no_flag [] = tt
stuff_all-no_flag (b ∷ bs) = ground (arith, stuff_all-no_flag bs)

-- Bytes written through the serial encoding fit a buffer exactly if their size on the wire does, and
-- otherwise the buffer is reported full. What was written is as long as that size, holds no end flag,
-- and reads as the bytes, whatever comes after it.
pub read_many-write_all :
    (bs rest : List ℕ) (c : ℕ)
    → let r = write_all serial_encoding bs (record { written = []; capacity = c }) in
      (c < serial_wire_size_of bs → r.0 ≡ err buffer_full)
      × (serial_wire_size_of bs ≤ c
          → (r.0 ≡ ok tt)
            × (wire_position r.1 ≡ serial_wire_size_of bs)
            × All (λ b. (b == end_flag) ≡ false) r.1.written
            × (read_many serial_encoding (length bs) (record { rest = r.1.written ++ rest })
                ≡ (ok bs, record { rest = rest })))
unfolding wire_position
read_many-write_all bs rest c = (
  λ h. write_all-full bs [] c (omega arith) (omega (arith, h)),
  λ h.
      rw (write_all-stuff bs [] c (omega (arith, h)))
        (refl, length-stuff_all bs, stuff_all-no_flag bs, read_many-stuff bs rest),
)
