-- ===== src/Mctp/Sending/Chunk.antt =====
-- The chunk of a message that goes into one packet.
use embedded_services.Base.{
  ℕ, zero, suc, dec_le, false, true, ◌+◌, ◌≤◌, ◌≡◌, refl, List, [], ◌∷◌, ◌++◌, length,
  length-append, arith, ltb, ap,
}
use embedded_services.Mctp.Encoding.{BufferEncoding, skip}
use embedded_services.Mctp.Serial.{take}
use embedded_services.Mctp.Sending.{chunk_of}
use embedded_services.Mctp.Sending.Encodings.{Stuffs, wire_all, wire_all_one}

pub take-skip : (n : ℕ) (bs : List ℕ) → take n bs ++ skip n bs ≡ bs
unfolding take skip
take-skip zero bs = refl
take-skip (suc n) [] = refl
take-skip (suc n) (b ∷ bs) = ap (λ l. b ∷ l) (take-skip n bs)

module _ (enc : BufferEncoding) (wire : ℕ → List ℕ) (law : Stuffs enc wire) where
  cost_lem : (b : ℕ) → enc.wire_size_of (b ∷ []) ≡ length (wire b)
  cost_lem b = rw (law.sizes (b ∷ []), wire_all_one wire b) refl

  -- The chunk keeps the budget, and its size is counted right.
  pub chunk_of-fits :
      (budget consumed : ℕ) (bs : List ℕ)
      → consumed ≤ budget
      → let c = chunk_of enc budget consumed bs in
        (c.0 ≡ consumed + length (wire_all wire (take c.1 bs))) × (c.0 ≤ budget) × (c.1 ≤ length bs)
  unfolding chunk_of take wire_all
  chunk_of-fits budget consumed [] h = (omega arith, h, omega arith)
  chunk_of-fits budget consumed (b ∷ bs) h =
      let cost = cost_lem b in
      let rest = chunk_of enc budget (consumed + enc.wire_size_of (b ∷ [])) bs in
      let n = length-append (wire b) (wire_all wire (take rest.1 bs)) in
      elim (dec_le (consumed + enc.wire_size_of (b ∷ [])) budget) [
        | yes r ↦
            let i = chunk_of-fits budget (consumed + enc.wire_size_of (b ∷ [])) bs r in
            let k : ltb budget (consumed + enc.wire_size_of (b ∷ [])) ≡ false = ground (arith, r) in
            rw k (omega (arith, i.0, n, cost), i.1, omega (arith, i.2))
        | no r ↦
            let k : ltb budget (consumed + enc.wire_size_of (b ∷ [])) ≡ true = ground (arith, r) in
            rw k (omega arith, h, omega arith)
      ]

  -- A byte at least, where one fits.
  pub chunk_of-pos :
      (budget b : ℕ) (bs : List ℕ)
      → length (wire b) ≤ budget
      → 1 ≤ (chunk_of enc budget 0 (b ∷ bs)).1
  unfolding chunk_of
  chunk_of-pos budget b bs h = ground (arith, h, cost_lem b)
