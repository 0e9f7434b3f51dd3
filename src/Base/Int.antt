-- ===== src/Base/Int.antt =====
-- Signed integers over the native numbers, under the library's names, and the two's complement
-- reading of a machine word.
use Prim.Native.Nat.{ℕ, zero, suc, ◌-◌, ◌^◌, ◌<◌}
use mathlib.Core.Path.{◌≡◌}
use native.Mathlib.Omega.{arith}
use opcuapp.Base.Tests.{ltb, if◌then◌else◌}

-- `negsuc n` is -(n + 1).
pub data ℤ : Type 0 where
  pos : ℕ → ℤ
  negsuc : ℕ → ℤ

-- `static_cast<std::int32_t>` of a 32-bit word, and the cast back.
abbrev pub to_int32 : ℕ → ℤ
to_int32 w = if ltb w (2 ^ 31) then pos w else negsuc (2 ^ 32 - w - 1)

abbrev pub of_int32 : ℤ → ℕ
of_int32 (pos n) = n
of_int32 (negsuc n) = 2 ^ 32 - n - 1

abbrev pub to_int64 : ℕ → ℤ
to_int64 w = if ltb w (2 ^ 63) then pos w else negsuc (2 ^ 64 - w - 1)

pub of_int32-to_int32 : (w : ℕ) → w < 2 ^ 32 → of_int32 (to_int32 w) ≡ w
of_int32-to_int32 w h = ground arith

-- `std::max<std::int64_t>(1, x)`, which is positive.
abbrev pub max_one : ℤ → ℕ
max_one (pos zero) = 1
max_one (pos (suc n)) = suc n
max_one (negsuc n) = 1
