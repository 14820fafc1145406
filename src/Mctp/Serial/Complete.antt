-- ===== src/Mctp/Serial/Complete.antt =====
-- How a byte stream is cut into frames.
use embedded_services.Base.{
  ℕ, suc, ◌+◌, ◌/◌, ◌%◌, ◌≡◌, refl, sym, ◌∙◌, ap, false, Option, none, some, List, [], ◌∷◌, ◌++◌,
  ok, ok-injective, length, length-append, All, arith, ◌==◌, if◌then◌else◌,
}
use embedded_services.Mctp.Encoding.{end_flag, serial_encoding, write_all}
use embedded_services.Mctp.Encoding.Roundtrip.{stuff, stuff_all, stuff_all-no_flag}
use embedded_services.Mctp.Serial.{Checksum, serialize, position, frame_complete}
use embedded_services.Mctp.Serial.Frames.{fcs_of, frame_of, Fits, serialize-frame_of}

abbrev HasNoFlag : List ℕ → Type 0
HasNoFlag = All (λ b. (b == end_flag) ≡ false)

abbrev shift : ℕ → Option ℕ → Option ℕ
shift n (some k) = some (n + k)
shift n none = none

shift_zero : (o : Option ℕ) → shift 0 o ≡ o
shift_zero none = refl
shift_zero (some n) = ap some (omega arith)

position-append :
    (xs ys : List ℕ) → HasNoFlag xs → position (xs ++ ys) ≡ shift (length xs) (position ys)
unfolding position
position-append [] ys h = sym (shift_zero (position ys))
position-append (x ∷ xs) ys h = rw (h.0, position-append xs ys h.1) (go (position ys))
  where
    go :
        (o : Option ℕ)
        → elim (shift (length xs) o) [ some n ↦ some (suc n) | none ↦ none ]
          ≡ shift (length (x ∷ xs)) o
    go none = refl
    go (some n) = ap some (omega arith)

stuff-no_flag : (b : ℕ) → HasNoFlag (stuff b)
unfolding stuff
stuff-no_flag b = ground arith

module _ (crc : Checksum) where
  position-body :
      (bs : List ℕ)
      → let m = fcs_of crc bs / 256 in
        let l = fcs_of crc bs % 256 in
        position (stuff_all bs ++ (stuff m ++ (stuff l ++ (end_flag ∷ []))))
        ≡ some (length (stuff_all bs) + (length (stuff m) + (length (stuff l) + 0)))
  unfolding position
  position-body bs =
      let m = fcs_of crc bs / 256 in
      let l = fcs_of crc bs % 256 in
      rw
        (
          position-append (stuff_all bs) (stuff m ++ (stuff l ++ (end_flag ∷ [])))
              (stuff_all-no_flag bs),
          position-append (stuff m) (stuff l ++ (end_flag ∷ [])) (stuff-no_flag m),
          position-append (stuff l) (end_flag ∷ []) (stuff-no_flag l),
        )
        refl

  frame_complete-frame_of :
      (bs : List ℕ)
      → frame_complete (frame_of crc bs)
        ≡ some (if length bs == end_flag then 2 else length (frame_of crc bs))
  unfolding frame_complete position
  frame_complete-frame_of bs =
      let m = fcs_of crc bs / 256 in
      let l = fcs_of crc bs % 256 in
      let n = length-append (stuff_all bs) (stuff m ++ (stuff l ++ (end_flag ∷ []))) in
      let o = length-append (stuff m) (stuff l ++ (end_flag ∷ [])) in
      let p = length-append (stuff l) (end_flag ∷ []) in
      rw (position-body bs) (ground (arith, n, o, p))

  -- A frame that was serialized is found complete at its full length, except where its body has 126
  -- bytes: then its byte count is the end flag itself, and the frame is cut after two bytes.
  pub frame_complete-serialize :
      (bs : List ℕ) (capacity : ℕ) (f : List ℕ)
      → Fits crc bs capacity
      → serialize crc (write_all serial_encoding bs) capacity ≡ ok f
      → frame_complete f ≡ some (if length bs == 126 then 2 else length f)
  frame_complete-serialize bs capacity f h e =
      let g : ok (frame_of crc bs) ≡ ok f = sym (serialize-frame_of crc bs capacity h) ∙ e in
      rw (sym (ok-injective g)) (frame_complete-frame_of bs)
