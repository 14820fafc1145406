-- ===== src/Base/Store.antt =====
-- Shared objects behind references: a store from addresses to objects. Two references are the same
-- object (`ptr::eq`) exactly when their addresses are equal.
use Prim.Native.Nat.{ℕ}
use mathlib.Core.Path.{◌≡◌}
use mathlib.Core.Logic.{◌≢◌}
use native.Mathlib.Omega.{arith}
use embedded_services.Base.Tests.{◌==◌, if◌then◌else◌}

module _ {ℓ} {A : Type ℓ} where
  abbrev pub write : (ℕ → A) → ℕ → A → ℕ → A
  write m i a j = if i == j then a else m j

  pub write_self : (m : ℕ → A) (i : ℕ) (a : A) → write m i a i ≡ a
  write_self m i a = ground arith

  pub write_ne : (m : ℕ → A) (i j : ℕ) (a : A) → i ≢ j → write m i a j ≡ m j
  write_ne m i j a h = ground arith
