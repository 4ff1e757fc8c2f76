-- ===== src/Base/Double.antt =====
-- Numbers of type `double`, below 2 ^ 53: the integer `num` over a power of 2. An operation rounds
-- its exact result once, to the nearest of them, and to the even one of two that are as near.
use Prim.Native.Nat.{ℕ, zero, suc, ◌+◌, ◌-◌, ◌*◌, ◌/◌, ◌%◌, ◌^◌}
use mathlib.Core.Bool.{Bool, true, false}
use librabbitmq.Base.{ltb, leb, if◌then◌else◌}
use librabbitmq.Base.Int.{ℤ, pos, negsuc}

-- `num / 2 ^ exp`.
pub record Double : Type 0 where
  pub num : ℤ
  pub exp : ℕ

-- The integer next to `a / b`.
abbrev pub nearest : ℕ → ℕ → ℕ
nearest a b =
    if ltb (2 * (a % b)) b
    then a / b
    else (if ltb b (2 * (a % b)) then a / b + 1 else a / b + (a / b) % 2)

abbrev pub signed : Bool → ℕ → ℤ
signed true m = pos m
signed false zero = pos 0
signed false (suc m) = negsuc m

-- `a / b` with a sign, on the first scale from `2 ^ e` on that gives it 53 binary digits. The
-- smallest numbers have scale 2 ^ 1074.
unfoldable pub on_scale : ℕ → ℕ → Bool → ℕ → ℕ → Double
on_scale zero e sign a b = record { num = signed sign (nearest (a * 2 ^ e) b); exp = e }
on_scale (suc k) e sign a b = elim (leb (2 ^ 52 * b) (a * 2 ^ e)) [
  | true ↦ record { num = signed sign (nearest (a * 2 ^ e) b); exp = e }
  | false ↦ on_scale k (suc e) sign a b
]

abbrev pub rounded : Bool → ℕ → ℕ → Double
rounded sign a b = if ltb 0 a then on_scale 1074 0 sign a b else record { num = pos 0; exp = 0 }

-- The quotient of two whole numbers.
abbrev pub quotient : ℕ → ℕ → Double
quotient a b = rounded true a b

-- `(x - y) / 2 ^ e`.
abbrev pub difference : ℕ → ℕ → ℕ → Double
difference x y e = if leb y x then rounded true (x - y) (2 ^ e) else rounded false (y - x) (2 ^ e)

-- `x - y`.
unfoldable pub minus : Double → Double → Double
unfolding on_scale
minus x y = elim x.num [
  | pos a ↦ elim y.num [
    | pos b ↦ difference (a * 2 ^ y.exp) (b * 2 ^ x.exp) (x.exp + y.exp)
    | negsuc b ↦ difference (a * 2 ^ y.exp + (b + 1) * 2 ^ x.exp) 0 (x.exp + y.exp)
  ]
  | negsuc a ↦ elim y.num [
    | pos b ↦ difference 0 ((a + 1) * 2 ^ y.exp + b * 2 ^ x.exp) (x.exp + y.exp)
    | negsuc b ↦ difference ((b + 1) * 2 ^ x.exp) ((a + 1) * 2 ^ y.exp) (x.exp + y.exp)
  ]
]
