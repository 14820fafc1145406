-- ===== src/Mctp/Assembly/Buffer.antt =====
-- The assembly buffer: what is written after some bytes leaves them as they are.
use embedded_services.Base.{
  ℕ, zero, suc, ◌+◌, ◌<◌, ◌≡◌, refl, sym, ◌∙◌, ap, List, [], ◌∷◌, ◌++◌, Result, ok, err,
  ok-injective, length, arith,
}
use embedded_services.Base.Store.{write, write_self, write_ne}
use embedded_services.Mctp.Encoding
use embedded_services.Mctp.Encoding.{EncodingDecoder, DecodeError, read_many, read_on, collect}
use embedded_services.Mctp.Header.{HeaderParser}
use embedded_services.Mctp.Assembly.{Medium, PacketContext, slice, copy, copied}

unfoldable pub write_bytes : List ℕ → ℕ → (ℕ → ℕ) → ℕ → ℕ
write_bytes [] i buf = buf
write_bytes (b ∷ bs) i buf = write_bytes bs (i + 1) (write buf i b)

write_bytes-below : (bs : List ℕ) (i j : ℕ) (buf : ℕ → ℕ) → j < i → write_bytes bs i buf j ≡ buf j
unfolding write_bytes
write_bytes-below [] i j buf h = refl
write_bytes-below (b ∷ bs) i j buf h =
    write_bytes-below bs (i + 1) j (write buf i b) (omega (arith, h))
    ∙ write_ne buf i j b (omega (arith, h))

slice_ext : (n i : ℕ) (f g : ℕ → ℕ) → ((j : ℕ) → j < i + n → f j ≡ g j) → slice n i f ≡ slice n i g
unfolding slice
slice_ext zero i f g h = refl
slice_ext (suc n) i f g h =
    rw (h i (omega arith), slice_ext n (i + 1) f g (λ j k. h j (omega (arith, k)))) refl

pub slice-write_bytes :
    (bs : List ℕ) (i : ℕ) (buf : ℕ → ℕ) → slice (length bs) i (write_bytes bs i buf) ≡ bs
unfolding slice write_bytes
slice-write_bytes [] i buf = refl
slice-write_bytes (b ∷ bs) i buf =
    rw
      (
        write_bytes-below bs (i + 1) i (write buf i b) (omega arith),
        write_self buf i b,
        slice-write_bytes bs (i + 1) (write buf i b),
      )
      refl

slice-append :
    (n k i : ℕ) (buf : ℕ → ℕ) → slice (n + k) i buf ≡ slice n i buf ++ slice k (i + n) buf
unfolding slice
slice-append zero k i buf =
    let e : 0 + k ≡ k = omega arith in let f : i + 0 ≡ i = omega arith in rw (e, f) refl
slice-append (suc n) k i buf =
    let e : suc n + k ≡ suc (n + k) = omega arith in
    let f : i + suc n ≡ i + 1 + n = omega arith in
    rw (e, f) (ap (λ l. buf i ∷ l) (slice-append n k (i + 1) buf))

-- What stands before the bytes that are written stays before them.
pub slice-after_write :
    (acc bs : List ℕ) (buf : ℕ → ℕ)
    → slice (length acc) 0 buf ≡ acc
    → slice (length acc + length bs) 0 (write_bytes bs (length acc) buf) ≡ acc ++ bs
slice-after_write acc bs buf h =
    let n = length acc in
    let new = write_bytes bs n buf in
    let e : 0 + n ≡ n = omega arith in
    let same = slice_ext n 0 new buf (λ j k. write_bytes-below bs n j buf (omega (arith, k))) in
    rw (slice-append n (length bs) 0 new, e, same, h, slice-write_bytes bs n buf) refl

collect_ok :
    (b : ℕ) (q : Result (List ℕ) DecodeError × EncodingDecoder) (chunk : List ℕ)
    → (collect b q).0 ≡ ok chunk
    → (rest : List ℕ) × (q.0 ≡ ok rest) × (chunk ≡ b ∷ rest)
collect_ok b (ok bs, d) chunk h = (bs, refl, sym (ok-injective h))
collect_ok b (err e, d) chunk h = absurd (ground (arith, h))

module _ {F E R : Type 0} (medium : Medium F E R) (parser : HeaderParser) where
  copied_lem :
      (n i : ℕ) (r : Result ℕ DecodeError × EncodingDecoder) (chunk : List ℕ) (s : PacketContext)
      → ((d : EncodingDecoder) (rest : List ℕ) (t : PacketContext)
          → (read_many medium.encoding n d).0 ≡ ok rest
          → copy medium parser n (i + 1) d t ≡ (
            ok tt,
            record t { packet_assembly_buffer = write_bytes rest (i + 1) t.packet_assembly_buffer },
          ))
      → (read_on r (read_many medium.encoding n)).0 ≡ ok chunk
      → copied medium parser r i (copy medium parser n (i + 1)) s ≡ (
        ok tt,
        record s { packet_assembly_buffer = write_bytes chunk i s.packet_assembly_buffer },
      )
  unfolding write_bytes
  copied_lem n i (ok b, d) chunk s ih h =
      let c = collect_ok b (read_many medium.encoding n d) chunk h in
      rw (c.2)
        (ih d c.0 (record s { packet_assembly_buffer = write s.packet_assembly_buffer i b }) c.1)
  copied_lem n i (err e, d) chunk s ih h = absurd (ground (arith, h))

  -- The copy of a body that can be read writes it and changes nothing else.
  pub copy_lem :
      (n i : ℕ) (d : EncodingDecoder) (chunk : List ℕ) (s : PacketContext)
      → (read_many medium.encoding n d).0 ≡ ok chunk
      → copy medium parser n i d s ≡ (
        ok tt,
        record s { packet_assembly_buffer = write_bytes chunk i s.packet_assembly_buffer },
      )
  unfolding copy write_bytes read_many
  copy_lem zero i d chunk s h = rw (sym (ok-injective h)) refl
  copy_lem (suc n) i d chunk s h =
      copied_lem n i (Encoding.read medium.encoding d) chunk s
        (λ e rest t k. copy_lem n (i + 1) e rest t k) h
