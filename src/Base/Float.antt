-- ===== src/Base/Float.antt =====
-- Go's float64: the type and the operations that the code uses are a parameter.
use Prim.Native.Nat.{ℕ}
use mathlib.Core.Path.{◌≡◌}
use mathlib.Core.Bool.{Bool, true, false}
use kamado_pool.Base.Word.{Int64}

pub record Float64 (F : Type 0) : Type 0 where
  pub nought : F
  pub lt : F → F → Bool
  pub le : F → F → Bool
  pub eq : F → F → Bool
  pub add : F → F → F
  pub sub : F → F → F
  pub mul : F → F → F
  pub div : F → F → F
  pub ceil : F → F
  pub of_int : Int64 → F
  pub to_int : F → Int64
  -- math.MaxFloat64
  pub max_float : F
  -- Duration.Seconds, of nanoseconds
  pub seconds : ℕ → F
  -- the constant k * 10 ^ e
  pub sci : Int64 → Int64 → F

-- What IEEE 754 says of the comparison `<`.
pub record IsOrdered {F : Type 0} (fl : Float64 F) : Type 0 where
  pub lt_irrefl : (x : F) → fl.lt x x ≡ false
  pub lt_trans : (x y z : F) → fl.lt x y ≡ true → fl.lt y z ≡ true → fl.lt x z ≡ true
