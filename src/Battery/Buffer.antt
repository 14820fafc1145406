-- ===== src/Battery/Buffer.antt =====
-- battery-service-relay/src/serialization.rs: reads and writes of a buffer at offsets, with the errors of
-- embedded-service/src/relay/mod.rs.
pub mod Layout
use embedded_services.Base.{
  ℕ, zero, suc, ◌+◌, ◌*◌, ◌/◌, ◌%◌, ◌≡◌, Option, none, some, List, [], ◌∷◌, ◌++◌, Result, ok, err,
  length, ltb, if◌then◌else◌,
}
use embedded_services.Base.Exec.{Exec, ◌>>=◌, pure}
use embedded_services.Mctp.Encoding.{skip}
use embedded_services.Mctp.Serial.{take}

-- What a payload was to be when it is refused.
pub data Payload : Type 0 where
  battery_state power_source power_threshold_support bmd_status_flags : Payload
  bmd_capability_flags sta_flags threshold_id power_unit battery_technology : Payload
  battery_swapping_capability power_source_state : Payload

pub data MessageError : Type 0 where
  buffer_too_small : MessageError
  unknown_message_discriminant : ℕ → MessageError
  invalid_payload : Payload → MessageError

abbrev pub Read : Type 0 → Type 0
Read A = Result A MessageError

abbrev pub and_then {ℓ κ} :
    {A : Type ℓ} {B : Type κ}
    → Result A MessageError
    → (A → Result B MessageError)
    → Result B MessageError
and_then (ok a) f = f a
and_then (err e) f = err e

-- `buffer.get(index..index + n)`
unfoldable pub safe_get_bytes : ℕ → List ℕ → ℕ → Read (List ℕ)
safe_get_bytes n buffer index =
    if ltb (length buffer) (index + n)
    then err buffer_too_small
    else ok (take n (skip index buffer))

abbrev pub u32_of_le_bytes : List ℕ → ℕ
u32_of_le_bytes (a ∷ b ∷ c ∷ d ∷ bs) = a + b * 256 + c * 65536 + d * 16777216
u32_of_le_bytes _ = 0

abbrev pub first : List ℕ → ℕ
first (b ∷ bs) = b
first [] = 0

unfoldable pub safe_get_u8 : List ℕ → ℕ → Read ℕ
safe_get_u8 buffer index = and_then (safe_get_bytes 1 buffer index) λ bs. ok (first bs)

unfoldable pub safe_get_dword : List ℕ → ℕ → Read ℕ
safe_get_dword buffer index = and_then (safe_get_bytes 4 buffer index) λ bs. ok (u32_of_le_bytes bs)

-- `u32::to_le_bytes`
abbrev pub dword : ℕ → List ℕ
dword n = n % 256 ∷ n / 256 % 256 ∷ n / 65536 % 256 ∷ n / 16777216 % 256 ∷ []

abbrev pub Put : Type 0
Put = Exec (List ℕ) MessageError ℕ

-- The bytes of a buffer that has the range, written at an offset; their number.
unfoldable pub safe_put_bytes : ℕ → List ℕ → Put
safe_put_bytes index bytes buffer =
    if ltb (length buffer) (index + length bytes)
    then (err buffer_too_small, buffer)
    else (ok (length bytes), take index buffer ++ (bytes ++ skip (index + length bytes) buffer))

-- `Ok(put(..)? + put(..)? + ..)`, each with its offset.
unfoldable pub put_all : List (ℕ × List ℕ) → Put
put_all [] = pure 0
put_all (f ∷ fs) = safe_put_bytes f.0 f.1 >>= λ n. put_all fs >>= λ m. pure (n + m)
