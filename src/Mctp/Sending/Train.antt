-- ===== src/Mctp/Sending/Train.antt =====
-- All packets of a message, in order.
use embedded_services.Base.{
  ℕ, zero, suc, ◌+◌, ◌%◌, ◌≤◌, ◌≡◌, refl, sym, subst, List, [], ◌∷◌, ◌++◌, Result, ok, err,
  ok-injective, length, All, arith,
}
use embedded_services.Mctp.Encoding.{skip}
use embedded_services.Mctp.Header.{next}
use embedded_services.Mctp.Serial.{take}
use embedded_services.Mctp.Assembly.{PacketError}
use embedded_services.Mctp.Sending.{SerializePacketState, send_all, collected}
use embedded_services.Mctp.Sending.Chunk.{take-skip}
use embedded_services.Mctp.Sending.Packet.{
  end_bit, sending, Sender, content_fits, max_wire, header_at, wired, taken, taken_bounds,
  next_packet_done, packet_of, next_packet-packet_of,
}

All-skip : (P : ℕ → Type 0) (k : ℕ) (bs : List ℕ) → All P bs → All P (skip k bs)
unfolding skip
All-skip P zero bs h = h
All-skip P (suc k) [] h = tt
All-skip P (suc k) (b ∷ bs) h = All-skip P k bs h.1

-- What is left is shorter by what was taken.
pub length-skip : (k : ℕ) (bs : List ℕ) → k ≤ length bs → length (skip k bs) + k ≡ length bs
unfolding skip
length-skip zero bs h = omega arith
length-skip (suc k) [] h = absurd (omega (arith, h))
length-skip (suc k) (b ∷ bs) h = omega (arith, length-skip k bs (omega (arith, h)))

pub length-take : (k : ℕ) (bs : List ℕ) → k ≤ length bs → length (take k bs) ≡ k
unfolding take
length-take zero bs h = refl
length-take (suc k) [] h = absurd (omega (arith, h))
length-take (suc k) (b ∷ bs) h = omega (arith, length-take k bs (omega (arith, h)))

module _ {E R : Type 0} (t : Sender E R) where
  -- There is room for a header and any byte of the message.
  abbrev pub HasRoom : List ℕ → Type 0
  HasRoom = All λ b. t.cost + wired t (b ∷ []) ≤ max_wire t

  -- The packets carry the message in chunks, none of them empty, within the limits of the medium, with consecutive sequence numbers; the
  -- last has the end bit, and the first and, as the counter is a u8, every 256th after it the start bit.
  abbrev pub Carries : ℕ → ℕ → List ℕ → List (List ℕ) → Type 0
  Carries seq n message [] = message ≡ []
  Carries seq n message (p ∷ ps) =
      (chunk : List ℕ) × (rest : List ℕ) × (message ≡ chunk ++ rest)
      × (1 ≤ length chunk)
      × (wired t (header_at t (next seq) n (end_bit rest) ++ chunk) ≤ max_wire t)
      × (p ≡ t.frame t.c.medium_context (header_at t (next seq) n (end_bit rest) ++ chunk))
      × Carries (next seq) ((n + 1) % 256) rest ps

  collected-Carries :
      (seq n b : ℕ) (bs : List ℕ)
      → t.cost + wired t (b ∷ []) ≤ max_wire t
      → (r : Result (List (List ℕ)) (PacketError E) × SerializePacketState R)
      → let message = b ∷ bs in
        let k = taken t seq n message in
        (ps : List (List ℕ)) × (r.0 ≡ ok ps)
          × (r.1.message_buffer ≡ [])
          × Carries (next seq) ((n + 1) % 256) (skip k message) ps
        → let r2 = collected t.medium t.writer (packet_of t seq n message) r in
          (ps : List (List ℕ)) × (r2.0 ≡ ok ps)
          × (r2.1.message_buffer ≡ [])
          × Carries seq n message ps
  collected-Carries seq n b bs room (ok ps, s) h =
      let l = taken_bounds t seq n b bs room in
      let message = b ∷ bs in
      let k = taken t seq n message in
      (
        packet_of t seq n message ∷ ps,
        refl,
        h.2,
        (
          take k message,
          skip k message,
          sym (take-skip k message),
          omega (arith, l.0, length-take k message l.1),
          content_fits t seq n b bs room,
          refl,
          subst (Carries (next seq) ((n + 1) % 256) (skip k message)) (sym (ok-injective h.1)) h.3,
        ),
      )
  collected-Carries seq n b bs room (err e, s) h = absurd (ground (arith, h.1))

  -- A message is sent to its end: where there is room for a header and a byte, as many rounds as the
  -- message has bytes are enough, no packet is refused, nothing of the message is left, and the packets
  -- carry it.
  pub send_all-Carries :
      (fuel seq n : ℕ) (message : List ℕ)
      → HasRoom message
      → length message ≤ fuel
      → let r = send_all t.medium t.writer fuel (sending t.c t.capacity seq n message) in
        (ps : List (List ℕ)) × (r.0 ≡ ok ps) × (r.1.message_buffer ≡ []) × Carries seq n message ps
  unfolding send_all
  send_all-Carries zero seq n [] room h = ([], refl, refl, refl)
  send_all-Carries (suc fuel) seq n [] room h = rw (next_packet_done t seq n) ([], refl, refl, refl)
  send_all-Carries zero seq n (b ∷ bs) room h = absurd (omega (arith, h))
  send_all-Carries (suc fuel) seq n (b ∷ bs) room h =
      let message = b ∷ bs in
      let k = taken t seq n message in
      let l = taken_bounds t seq n b bs room.0 in
      let rest = skip k message in
      let go =
        send_all-Carries fuel (next seq) ((n + 1) % 256) rest (All-skip _ k message room)
          (omega (arith, h, l.0, length-skip k message l.1)) in
      let r =
        send_all t.medium t.writer fuel (sending t.c t.capacity (next seq) ((n + 1) % 256) rest) in
      rw (next_packet-packet_of t seq n b bs room.0) (collected-Carries seq n b bs room.0 r go)
