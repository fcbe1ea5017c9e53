-- ===== src/Base/Time.antt =====
-- Go's time.Time as nanoseconds since the zero time, 1 January of year 1, UTC; a test
-- `now.Sub(t) >= d` is `t + d <= now`.
use Prim.Native.Nat.{ℕ, ◌+◌, ◌*◌, ◌/◌, ◌^◌, ◌<◌}
use mathlib.Core.Path.{◌≡◌}
use mathlib.Core.Bool.{Bool}
use native.Mathlib.Omega.{arith}
use kamado_pool.Base.Tests.{◌==◌, leb}
use kamado_pool.Base.Word.{Int64, add64, sub64}

abbrev pub Time : Type 0
Time = ℕ

abbrev pub second : ℕ
second = 10 ^ 9

abbrev pub is_zero : Time → Bool
is_zero t = t == 0

-- now.Sub(t) >= d
abbrev pub elapsed : Time → Time → ℕ → Bool
elapsed now t d = leb (t + d) now

-- The seconds from the zero time to 1 January 1970.
abbrev pub epoch_seconds : ℕ
epoch_seconds = 62_135_596_800

-- t.Unix() and time.Unix(s, 0)
unfoldable pub unix : Time → Int64
unfolding sub64
unix t = sub64 (t / second) epoch_seconds

unfoldable pub of_unix : Int64 → Time
unfolding add64
of_unix s = add64 s epoch_seconds * second

-- Storing a time as Unix seconds and reading it back cuts it to whole seconds.
pub of_unix-unix : (t : Time) → t / second < 2 ^ 63 → of_unix (unix t) ≡ t / second * second
unfolding of_unix unix
of_unix-unix t h = omega arith
