-- ===== src/Base/Word.antt =====
-- Go's int64: the bit pattern, a number below 2 ^ 64, with the wrap-around of + and - written out
-- and the order read through the sign bit.
use Prim.Native.Nat.{ℕ, ◌+◌, ◌-◌, ◌/◌, ◌%◌, ◌^◌, ◌<◌, ◌≤◌}
use mathlib.Core.Path.{◌≡◌}
use mathlib.Core.Bool.{Bool}
use native.Mathlib.Omega.{arith}
use kamado_pool.Base.Tests.{ltb, leb, if◌then◌else◌}

abbrev pub Int64 : Type 0
Int64 = ℕ

-- a + b
unfoldable pub add64 : Int64 → Int64 → Int64
add64 a b = (a + b) % 2 ^ 64

-- a - b
unfoldable pub sub64 : Int64 → Int64 → Int64
sub64 a b = (a + 2 ^ 64 - b) % 2 ^ 64

-- -a
unfoldable pub neg64 : Int64 → Int64
neg64 a = (2 ^ 64 - a) % 2 ^ 64

-- The pattern moved so that the signed order is the order of numbers.
abbrev pub biased : Int64 → ℕ
biased a = (a + 2 ^ 63) % 2 ^ 64

-- a < b and a <= b, signed
unfoldable pub lt64 : Int64 → Int64 → Bool
lt64 a b = ltb (biased a) (biased b)

unfoldable pub le64 : Int64 → Int64 → Bool
le64 a b = leb (biased a) (biased b)

-- a / b for b other than 0: the quotient is cut towards 0
unfoldable pub div64 : Int64 → Int64 → Int64
div64 a b =
    let size = λ (x : ℕ). if ltb x (2 ^ 63) then x else 2 ^ 64 - x in
    let q = size a / size b in
    if ltb a (2 ^ 63)
    then (if ltb b (2 ^ 63) then q else neg64 q)
    else if ltb b (2 ^ 63)
    then neg64 q
    else q % 2 ^ 64

pub add64_small : (a b : Int64) → a + b < 2 ^ 64 → add64 a b ≡ a + b
unfolding add64
add64_small a b h = omega arith

pub sub64_small : (a b : Int64) → a < 2 ^ 64 → b ≤ a → sub64 a b ≡ a - b
unfolding sub64
sub64_small a b h k = omega arith

-- Away from the sign bit the signed order is that of the numbers.
pub lt64_small : (a b : Int64) → a < 2 ^ 63 → b < 2 ^ 63 → lt64 a b ≡ ltb a b
unfolding lt64
lt64_small a b h k = ground arith

pub le64_small : (a b : Int64) → a < 2 ^ 63 → b < 2 ^ 63 → le64 a b ≡ leb a b
unfolding le64
le64_small a b h k = ground arith
