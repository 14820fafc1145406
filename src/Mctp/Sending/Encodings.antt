-- ===== src/Mctp/Sending/Encodings.antt =====
-- What a sender relies on in an encoding and a medium.
use embedded_services.Base.{
  ℕ, ◌+◌, ◌-◌, ◌≤◌, ◌≡◌, refl, sym, ap, ◌∙◌, List, [], ◌∷◌, ◌++◌, ok, min, length, length-append,
  arith,
}
use embedded_services.Mctp.Encoding.{
  BufferEncoding, passthrough_encoding, serial_encoding, write, write_all, remaining_wire,
  wire_position,
}
use embedded_services.Mctp.Encoding.Roundtrip.{
  append_nil, append_assoc, stuff, stuff_all, length-stuff_all, serial_write_byte-stuff,
}
use embedded_services.Mctp.Sending.{SendingMedium}

unfoldable pub wire_all : (ℕ → List ℕ) → List ℕ → List ℕ
wire_all wire [] = []
wire_all wire (b ∷ bs) = wire b ++ wire_all wire bs

-- Every byte stands on the wire by itself, and is written wherever there is room for it.
pub record Stuffs (enc : BufferEncoding) (wire : ℕ → List ℕ) : Type 0 where
  pub writes : (room b : ℕ) → length (wire b) ≤ room → enc.write_byte room b ≡ ok (wire b)
  pub sizes : (bs : List ℕ) → enc.wire_size_of bs ≡ length (wire_all wire bs)

module _ (wire : ℕ → List ℕ) where
  pub wire_all-append :
      (xs ys : List ℕ) → wire_all wire (xs ++ ys) ≡ wire_all wire xs ++ wire_all wire ys
  unfolding wire_all
  wire_all-append [] ys = refl
  wire_all-append (x ∷ xs) ys =
      rw (wire_all-append xs ys, append_assoc (wire x) (wire_all wire xs) (wire_all wire ys)) refl

  pub wire_all_one : (b : ℕ) → wire_all wire (b ∷ []) ≡ wire b
  unfolding wire_all
  wire_all_one b = append_nil (wire b)

-- Without stuffing, every byte stands for itself.
abbrev pub bare : ℕ → List ℕ
bare b = b ∷ []

pub wire_all-bare : (bs : List ℕ) → wire_all bare bs ≡ bs
unfolding wire_all
wire_all-bare [] = refl
wire_all-bare (b ∷ bs) = ap (λ l. b ∷ l) (wire_all-bare bs)

pub passthrough_encoding-Stuffs : Stuffs passthrough_encoding bare
unfolding passthrough_encoding
passthrough_encoding-Stuffs = record {
  writes = λ room b h. ground (arith, h);
  sizes = λ bs. ap length (sym (wire_all-bare bs));
}

wire_all-stuff : (bs : List ℕ) → wire_all stuff bs ≡ stuff_all bs
unfolding wire_all stuff_all
wire_all-stuff [] = refl
wire_all-stuff (b ∷ bs) = ap (λ l. stuff b ++ l) (wire_all-stuff bs)

pub serial_encoding-Stuffs : Stuffs serial_encoding stuff
unfolding serial_encoding
serial_encoding-Stuffs = record {
  writes = serial_write_byte-stuff;
  sizes = λ bs. sym (length-stuff_all bs) ∙ ap length (sym (wire_all-stuff bs));
}

module _ (enc : BufferEncoding) (wire : ℕ → List ℕ) (law : Stuffs enc wire) where
  pub write_all-wire_all :
      (bs w : List ℕ) (c : ℕ)
      → length w + length (wire_all wire bs) ≤ c
      → write_all enc bs (record { written = w; capacity = c })
        ≡ (ok tt, record { written = w ++ wire_all wire bs; capacity = c })
  unfolding write_all write wire_all remaining_wire wire_position
  write_all-wire_all [] w c h = rw (append_nil w) refl
  write_all-wire_all (b ∷ bs) w c h =
      let n = length-append (wire b) (wire_all wire bs) in
      let m = length-append w (wire b) in
      rw
        (
          law.writes (c - length w) b (omega (arith, h, n)),
          write_all-wire_all bs (w ++ wire b) c (omega (arith, h, n, m)),
          append_assoc w (wire b) (wire_all wire bs),
        )
        refl

-- A medium that frames every body within its limits: `frame` is the packet of some decoded bytes.
pub record Frames {E R : Type 0} (medium : SendingMedium E R) (wire : ℕ → List ℕ)
    (capacity room : ℕ) (frame : R → List ℕ → List ℕ) : Type 0 where
  pub opens : medium.room_in capacity ≡ ok room
  pub closes :
      (c : R) (bs : List ℕ)
      → length (wire_all wire bs) ≤ min medium.max_message_body_size room
      → medium.close_frame c capacity (wire_all wire bs) ≡ ok (frame c bs)
