-- ===== src/Mctp/Smbus/Frames.antt =====
-- An SMBus frame: what is sent is what is received, and where a frame ends in a stream.
use embedded_services.Base.{
  ℕ, zero, suc, ◌+◌, ◌/◌, ◌%◌, ◌^◌, ◌≤◌, ◌<◌, ◌≡◌, refl, sym, ap, ◌∙◌, true, false, none, some,
  List, [], ◌∷◌, ◌++◌, ok, ok-injective, length, length-append, arith, ltb,
}
use embedded_services.Mctp.Encoding.{skip}
use embedded_services.Mctp.Serial.{take}
use embedded_services.Mctp.Assembly.{from_be_bytes}
use embedded_services.Mctp.Sending.{to_be_bytes}
use embedded_services.Mctp.Smbus.{
  SmbusReplyContext, SmbusHeader, SmbusFrame, SmbusCode, byte_at, deserialize, frame_header,
  enclose, close_frame, frame_complete, reply_context, packet_size,
}

pub from_be_bytes-to_be_bytes : (n : ℕ) → n < 2 ^ 32 → from_be_bytes (to_be_bytes n) ≡ n
unfolding to_be_bytes
from_be_bytes-to_be_bytes n h = omega (arith, h)

take-append : (xs ys : List ℕ) → take (length xs) (xs ++ ys) ≡ xs
unfolding take
take-append [] ys = refl
take-append (x ∷ xs) ys = ap (λ l. x ∷ l) (take-append xs ys)

byte_at-append : (xs : List ℕ) (y : ℕ) (ys : List ℕ) → byte_at (length xs) (xs ++ (y ∷ ys)) ≡ y
byte_at-append [] y ys = refl
byte_at-append (x ∷ xs) y ys = byte_at-append xs y ys

-- What is relied on in the packed header: its fields come back, it is a u32, and its third byte is the
-- byte count.
pub record PacksHeaders (code : SmbusCode) : Type 0 where
  pub bits : SmbusHeader → ℕ
  pub packs : (h : SmbusHeader) → code.bits_of_header h ≡ some (bits h)
  pub bounded : (h : SmbusHeader) → bits h < 2 ^ 32
  pub unpacks :
      (h : SmbusHeader)
      → h.destination_slave_address < 2 ^ 7
      → h.source_slave_address < 2 ^ 7
      → h.byte_count < 2 ^ 8
      → code.header_of_bits (bits h) ≡ some h
  pub counts : (h : SmbusHeader) → h.byte_count < 2 ^ 8 → bits h / 2 ^ 8 % 2 ^ 8 ≡ h.byte_count

take_more : (n : ℕ) (xs : List ℕ) → n ≤ length xs → length (take n xs) ≡ n
unfolding take
take_more zero xs h = refl
take_more (suc n) [] h = absurd (omega (arith, h))
take_more (suc n) (x ∷ xs) h = ap suc (take_more n xs (omega (arith, h)))

-- A frame by its bytes, and where it ends.
deserialize-bytes :
    (code : SmbusCode) (a b c d sum : ℕ) (wire : List ℕ) (h : SmbusHeader)
    → code.header_of_bits (from_be_bytes (a ∷ b ∷ c ∷ d ∷ [])) ≡ some h
    → h.byte_count ≡ length wire
    → deserialize code (a ∷ b ∷ c ∷ d ∷ wire ++ (sum ∷ []))
      ≡ ok (record { header = h; pec = sum }, record { rest = wire })
unfolding deserialize skip take
deserialize-bytes code a b c d sum wire h u m =
    let len = length-append wire (sum ∷ []) in
    let k : ltb (suc (suc (suc (suc (length (wire ++ (sum ∷ []))))))) 4 ≡ false = ground arith in
    let l : ltb (length (wire ++ (sum ∷ []))) (length wire + 1) ≡ false = ground (arith, len) in
    rw (k, u, m, l, take-append wire (sum ∷ []), byte_at-append wire sum []) refl

frame_complete-bytes :
    (a b c d : ℕ) (wire more : List ℕ)
    → length wire ≡ c + 1
    → frame_complete (a ∷ b ∷ c ∷ d ∷ wire ++ more) ≡ some (4 + length wire)
unfolding frame_complete
frame_complete-bytes a b c d wire more h =
    let n = length-append wire more in
    let k : ltb (suc (suc (suc (suc (length (wire ++ more)))))) 4 ≡ false = ground arith in
    let l : ltb (suc (suc (suc (suc (length (wire ++ more)))))) (4 + c + 1) ≡ false =
      ground (arith, n, h) in
    let m : 4 + c + 1 ≡ 4 + length wire = omega (arith, h) in rw (k, l, m) refl

frame_complete-part :
    (a b c d : ℕ) (wire : List ℕ) (n : ℕ)
    → length wire ≡ c + 1
    → n < 4 + length wire
    → frame_complete (take n (a ∷ b ∷ c ∷ d ∷ wire)) ≡ none
unfolding frame_complete take
frame_complete-part a b c d wire zero h l = refl
frame_complete-part a b c d wire (suc zero) h l = refl
frame_complete-part a b c d wire (suc (suc zero)) h l = refl
frame_complete-part a b c d wire (suc (suc (suc zero))) h l = refl
frame_complete-part a b c d wire (suc (suc (suc (suc n)))) h l =
    let t = take_more n wire (omega (arith, l)) in
    let k : ltb (suc (suc (suc (suc (length (take n wire)))))) 4 ≡ false = ground arith in
    let m : ltb (suc (suc (suc (suc (length (take n wire)))))) (4 + c + 1) ≡ true =
      ground (arith, t, h, l) in
    rw (k, m) refl

module _ (code : SmbusCode) (law : PacksHeaders code) where
  abbrev pub frame_of : SmbusReplyContext → List ℕ → List ℕ
  frame_of c wire = enclose code wire (law.bits (frame_header code c wire))

  pub close_frame-frame_of :
      (c : SmbusReplyContext) (capacity : ℕ) (wire : List ℕ)
      → close_frame code c capacity wire ≡ ok (frame_of c wire)
  unfolding close_frame
  close_frame-frame_of c capacity wire = rw (law.packs (frame_header code c wire)) refl

  abbrev pub swapped : SmbusReplyContext → SmbusReplyContext
  swapped c = record {
    destination_slave_address = c.source_slave_address;
    source_slave_address = c.destination_slave_address;
  }

  -- A body of at most 255 bytes is framed and received: the receiver's decoder stands at exactly the
  -- body, the frame counts its bytes, its PEC is that of the bytes before it, and its reply context is the
  -- sender's with the two addresses, of 7 bits each, exchanged.
  pub deserialize-close_frame :
      (c : SmbusReplyContext) (capacity : ℕ) (wire p : List ℕ)
      → c.destination_slave_address < 2 ^ 7
      → c.source_slave_address < 2 ^ 7
      → length wire ≤ 255
      → close_frame code c capacity wire ≡ ok p
      → (f : SmbusFrame) × (deserialize code p ≡ ok (f, record { rest = wire }))
        × (packet_size f ≡ length wire)
        × (reply_context f ≡ swapped c)
        × (p ≡ take (4 + length wire) p ++ (code.pec (take (4 + length wire) p) ∷ []))
        × (f.pec ≡ code.pec (take (4 + length wire) p))
  unfolding to_be_bytes packet_size reply_context take
  deserialize-close_frame c capacity wire p d s l e =
      let h = frame_header code c wire in
      let n = law.bits h in
      let sum = code.pec (to_be_bytes n ++ wire) in
      let m : h.byte_count ≡ length wire = omega (arith, l) in
      let u =
        ap code.header_of_bits (from_be_bytes-to_be_bytes n (law.bounded h))
        ∙ law.unpacks h s d (omega arith) in
      let g : p ≡ frame_of c wire = ok-injective (sym e ∙ close_frame-frame_of c capacity wire) in
      let i : 4 + length wire ≡ suc (suc (suc (suc (length wire)))) = omega arith in
      let des =
        deserialize-bytes code (n / 16777216 % 256) (n / 65536 % 256) (n / 256 % 256) (n % 256) sum
          wire h u m in
      (
        record { header = h; pec = sum },
        ap (deserialize code) g ∙ des,
        m,
        refl,
        rw (g, i, take-append wire (sum ∷ [])) refl,
        rw (g, i, take-append wire (sum ∷ [])) refl,
      )

  -- A stream that begins with a frame is cut at the end of the frame, whatever follows, and a part of a
  -- frame is found incomplete.
  pub frame_complete-close_frame :
      (c : SmbusReplyContext) (capacity : ℕ) (wire p more : List ℕ)
      → length wire ≤ 255
      → close_frame code c capacity wire ≡ ok p
      → (frame_complete (p ++ more) ≡ some (length p))
        × ((n : ℕ) → n < length p → frame_complete (take n p) ≡ none)
  unfolding to_be_bytes
  frame_complete-close_frame c capacity wire p more l e =
      let h = frame_header code c wire in
      let n = law.bits h in
      let body = wire ++ (code.pec (to_be_bytes n ++ wire) ∷ []) in
      let k = law.counts h (omega arith) in
      let len : length body ≡ n / 256 % 256 + 1 =
        omega (arith, length-append wire (code.pec (to_be_bytes n ++ wire) ∷ []), k, l) in
      let g : p ≡ frame_of c wire = ok-injective (sym e ∙ close_frame-frame_of c capacity wire) in
      let i : length (frame_of c wire) ≡ 4 + length body = omega arith in
      rw g (
        rw i (
          frame_complete-bytes (n / 16777216 % 256) (n / 65536 % 256) (n / 256 % 256) (n % 256) body
              more len,
          λ j q.
              frame_complete-part (n / 16777216 % 256) (n / 65536 % 256) (n / 256 % 256) (n % 256)
                body j len q,
        ))
