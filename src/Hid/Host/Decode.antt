-- ===== src/Hid/Host/Decode.antt =====
-- Steps of the host's reader on a stream that begins with the bytes that it asks for.
use embedded_services.Base.{
  ℕ, suc, ◌+◌, ◌-◌, ◌/◌, ◌%◌, ◌^◌, ◌≤◌, ◌<◌, ◌≡◌, refl, ap, true, false, none, some, List, [], ◌∷◌,
  ◌++◌, ok, length, length-append, arith, ltb, leb, ◌==◌, if◌then◌else◌, inl, inr, Bool-cases,
}
use embedded_services.Mctp.Encoding.{skip}
use embedded_services.Mctp.Encoding.Roundtrip.{skip-append}
use embedded_services.Mctp.Sending.Train.{length-skip}
use embedded_services.Mctp.Serial.{take}
use embedded_services.Hid.Opcode
use embedded_services.Hid.Opcode.{
  opcode_of_word, has_extended_report_id, from_command, requires_report_id, extended_report_id,
}
use embedded_services.Hid.Command.{to_le_bytes}
use embedded_services.Hid.Command.Encoded.{id_bytes}
use embedded_services.Hid.Host.{
  Host, read_bus, read_into, read_data, slice, from_le_bytes, read_report_id,
}

abbrev pub at : List ℕ → List ℕ → Host
at incoming buffer = record { incoming = incoming; buffer = buffer }

pub from_le_bytes-to_le_bytes : (n : ℕ) → n < 2 ^ 16 → from_le_bytes (to_le_bytes n) ≡ n
from_le_bytes-to_le_bytes n h = omega (arith, h)

take-append : (xs ys : List ℕ) → take (length xs) (xs ++ ys) ≡ xs
unfolding take
take-append [] ys = refl
take-append (x ∷ xs) ys = ap (λ l. x ∷ l) (take-append xs ys)

pub read_bus-append :
    (xs ys buffer : List ℕ) → read_bus (length xs) (at (xs ++ ys) buffer) ≡ (ok xs, at ys buffer)
unfolding read_bus
read_bus-append xs ys buffer =
    let k : ltb (length (xs ++ ys)) (length xs) ≡ false = ground (arith, length-append xs ys) in
    rw (k, take-append xs ys, skip-append xs ys) refl

pub read_bus_two :
    (n : ℕ) (ys buffer : List ℕ)
    → read_bus 2 (at (to_le_bytes n ++ ys) buffer) ≡ (ok (to_le_bytes n), at ys buffer)
read_bus_two n ys buffer = read_bus-append (to_le_bytes n) ys buffer

pub read_bus_one :
    (b : ℕ) (ys buffer : List ℕ) → read_bus 1 (at (b ∷ ys) buffer) ≡ (ok (b ∷ []), at ys buffer)
read_bus_one b ys buffer = read_bus-append (b ∷ []) ys buffer

-- A word that says which report it is about, and the bytes behind it.
pub read_report_id-id_bytes :
    (opcode : Opcode.Opcode) (word id : ℕ) (ys buffer : List ℕ)
    → requires_report_id opcode ≡ true
    → word % 16 ≡ (if leb extended_report_id id then extended_report_id else id)
    → read_report_id opcode word (at (id_bytes id ++ ys) buffer) ≡ (ok (some id), at ys buffer)
unfolding read_report_id has_extended_report_id from_command
read_report_id-id_bytes opcode word id ys buffer r w =
    elim (Bool-cases (leb extended_report_id id)) [
      | inl e ↦
          let k : (word % 16 == extended_report_id) ≡ true = ground (arith, w, e) in
          rw (r, k, e, read_bus_one id ys buffer) refl
      | inr e ↦
          let k : (word % 16 == extended_report_id) ≡ false = ground (arith, w, e) in
          let v : word % 16 ≡ id = ground (arith, w, e) in rw (r, k, e, v) refl
    ]

pub read_report_id-none :
    (opcode : Opcode.Opcode) (word : ℕ) (h : Host)
    → requires_report_id opcode ≡ false
    → read_report_id opcode word h ≡ (ok none, h)
unfolding read_report_id
read_report_id-none opcode word h r = rw r refl

-- The buffer once a length and the data that it announces have been read.
abbrev pub with_data : List ℕ → List ℕ → List ℕ
with_data bytes buffer =
    to_le_bytes (length bytes + 2) ++ (bytes ++ skip (length bytes) (skip 2 buffer))

skip_two : (n x y : ℕ) (xs : List ℕ) → skip (n + 2) (x ∷ y ∷ xs) ≡ skip n xs
unfolding skip
skip_two n x y xs = let e : n + 2 ≡ suc (suc n) = omega arith in rw e refl

pub read_data-with_data :
    (bytes rest : List ℕ) (x y z : ℕ) (more : List ℕ)
    → length bytes + 2 ≤ length (x ∷ y ∷ z ∷ more)
    → length bytes + 2 < 2 ^ 16
    → read_data (at (to_le_bytes (length bytes + 2) ++ (bytes ++ rest)) (x ∷ y ∷ z ∷ more))
      ≡ (ok (length bytes + 2), at rest (with_data bytes (x ∷ y ∷ z ∷ more)))
unfolding read_data read_into skip take
read_data-with_data bytes rest x y z more h w =
    let n = length bytes in
    let k : ltb (suc (suc (suc (length more)))) 2 ≡ false = ground arith in
    let l : ltb (suc (suc (suc (length more)))) (n + 2) ≡ false = ground (arith, h) in
    let m : ltb (n + 2) 2 ≡ false = ground arith in
    let d : n + 2 - 2 ≡ n = omega arith in
    let j : ltb (length (bytes ++ rest)) n ≡ false = ground (arith, length-append bytes rest) in
    rw
      (
        k,
        read_bus_two (n + 2) (bytes ++ rest) (x ∷ y ∷ z ∷ more),
        from_le_bytes-to_le_bytes (n + 2) w,
        m,
        l,
        d,
        j,
        take-append bytes rest,
        skip-append bytes rest,
        skip_two n ((n + 2) % 256) ((n + 2) / 256 % 256) (z ∷ more),
      )
      refl

pub slice-with_data :
    (bytes rest : List ℕ) (x y z : ℕ) (more : List ℕ)
    → length bytes + 2 ≤ length (x ∷ y ∷ z ∷ more)
    → slice 2 (length bytes + 2) (at rest (with_data bytes (x ∷ y ∷ z ∷ more)))
      ≡ (ok (some bytes), at rest (with_data bytes (x ∷ y ∷ z ∷ more)))
unfolding slice skip
slice-with_data bytes rest x y z more h =
    let n = length bytes in
    let left = skip n (z ∷ more) in
    let a = length-append bytes left in
    let b = length-skip n (z ∷ more) (omega (arith, h)) in
    let k : ltb 2 (suc (suc (length (bytes ++ left)))) ≡ true = ground (arith, a, b, h) in
    let l : ltb (suc (suc (length (bytes ++ left)))) (n + 2) ≡ false = ground (arith, a) in
    let d : n + 2 - 2 ≡ n = omega arith in rw (k, l, d, take-append bytes left) refl
