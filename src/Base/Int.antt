-- ===== src/Base/Int.antt =====
-- Signed integers over the native numbers, and their 16-bit two's complement.
use Prim.Native.Nat.{ℕ, ◌-◌, ◌^◌, ◌<◌}
use mathlib.Core.Path.{◌≡◌}
use native.Mathlib.Omega.{arith}
use embedded_services.Base.Tests.{ltb, if◌then◌else◌}

-- `negsuc n` is -(n + 1).
pub data ℤ : Type 0 where
  pos : ℕ → ℤ
  negsuc : ℕ → ℤ

-- What fits an `i16`.
abbrev pub IsI16 : ℤ → Type 0
IsI16 (pos n) = n < 2 ^ 15
IsI16 (negsuc n) = n < 2 ^ 15

-- The bits of an `i16` as a `u16`, and back.
unfoldable pub to_u16 : ℤ → ℕ
to_u16 (pos n) = n
to_u16 (negsuc n) = 2 ^ 16 - 1 - n

unfoldable pub of_u16 : ℕ → ℤ
of_u16 w = if ltb w (2 ^ 15) then pos w else negsuc (2 ^ 16 - 1 - w)

pub to_u16-lt : (z : ℤ) → IsI16 z → to_u16 z < 2 ^ 16
unfolding to_u16
to_u16-lt (pos n) h = omega arith
to_u16-lt (negsuc n) h = omega arith

pub of_u16-to_u16 : (z : ℤ) → IsI16 z → of_u16 (to_u16 z) ≡ z
unfolding of_u16 to_u16
of_u16-to_u16 (pos n) h = ground arith
of_u16-to_u16 (negsuc n) h = ground arith

pub of_u16-IsI16 : (w : ℕ) → w < 2 ^ 16 → IsI16 (of_u16 w)
unfolding of_u16
of_u16-IsI16 w h = ground arith

pub to_u16-of_u16 : (w : ℕ) → w < 2 ^ 16 → to_u16 (of_u16 w) ≡ w
unfolding of_u16 to_u16
to_u16-of_u16 w h = ground arith
