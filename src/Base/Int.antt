-- ===== src/Base/Int.antt =====
-- Signed integers as Python and C hold them: `ℤ` over the native numbers, `uint64_t` and
-- `int32_t` conversions with their wrap-around.
use Prim.Native.Nat.{ℕ, ◌-◌, ◌%◌, ◌^◌, ◌<◌}
use mathlib.Core.Path.{◌≡◌}
use mathlib.Core.Bool.{Bool, true, false}
use mathlib.Core.Option.{Option, none, some}
use native.Mathlib.Omega.{arith}
use Prim.Native.Nat.{compare, Ordering}

-- `negsuc n` is -(n + 1).
pub data ℤ : Type 0 where
  pos : ℕ → ℤ
  negsuc : ℕ → ℤ

-- Whether `n < 2 ^ w`.
abbrev pub fits : ℕ → ℕ → Bool
fits w n = elim (compare n (2 ^ w)) [ Ordering.lt ↦ true | _ ↦ false ]

-- `PyLong_AsLong` on LP64, `PyLong_AsLongLong`: none is the OverflowError.
abbrev pub as_int64 : ℤ → Option ℤ
as_int64 (pos n) = elim (fits 63 n) [ true ↦ some (pos n) | false ↦ none ]
as_int64 (negsuc n) = elim (fits 63 n) [ true ↦ some (negsuc n) | false ↦ none ]

-- The conversion to `uint64_t`.
abbrev pub to_uint64 : ℤ → ℕ
to_uint64 (pos n) = n % 2 ^ 64
to_uint64 (negsuc n) = 2 ^ 64 - 1 - n % 2 ^ 64

-- The conversion of a word to `int`: its low 32 bits, read with a sign.
abbrev pub to_int32 : ℕ → ℤ
to_int32 u = elim (fits 31 (u % 2 ^ 32)) [
  | true ↦ pos (u % 2 ^ 32)
  | false ↦ negsuc (2 ^ 32 - 1 - u % 2 ^ 32)
]

-- The values of an `int32_t`.
abbrev pub IsInt32 : ℤ → Type 0
IsInt32 (pos n) = n < 2 ^ 31
IsInt32 (negsuc n) = n < 2 ^ 31

-- A value that fits goes through the two conversions unchanged.
pub to_int32-to_uint64 : (z : ℤ) → IsInt32 z → to_int32 (to_uint64 z) ≡ z
to_int32-to_uint64 (pos n) h = ground arith
to_int32-to_uint64 (negsuc n) h = ground arith

pub as_int64_small : (z : ℤ) → IsInt32 z → as_int64 z ≡ some z
as_int64_small (pos n) h = ground arith
as_int64_small (negsuc n) h = ground arith
