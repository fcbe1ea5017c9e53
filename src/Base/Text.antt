-- ===== src/Base/Text.antt =====
-- The functions of Go's strings package that the code uses, on the characters of a text. Letters are
-- folded as in ASCII.
use Prim.Native.Nat.{ℕ, ◌+◌}
use Prim.Native.Char.{code}
use Prim.Native.String.{String}
use mathlib.Core.Path.{◌≡◌, refl}
use mathlib.Core.Bool.{Bool, true, false, ◌&&◌, ◌||◌}
use mathlib.Core.Option.{Option, none, some}
use kamado_pool.Base.Tests.{leb, ◌==◌, if◌then◌else◌}

-- the letter of a byte in lower case
unfoldable pub lower : ℕ → ℕ
lower c = if leb b'A' c && leb c b'Z' then c + 32 else c

-- The rest of a text after a prefix; `fold` is applied to the text's characters.
unfoldable pub strip_by : (ℕ → ℕ) → String → String → Option String
strip_by fold String.[] s = some s
strip_by fold (String.◌∷◌ c p) String.[] = none
strip_by fold (String.◌∷◌ c p) (String.◌∷◌ d s) =
    if code c == fold (code d) then strip_by fold p s else none

-- what follows the first occurrence of a text
unfoldable pub after_by : (ℕ → ℕ) → String → String → Option String
after_by fold p String.[] = strip_by fold p String.[]
after_by fold p (String.◌∷◌ c s) = elim (strip_by fold p (String.◌∷◌ c s)) [
  | some r ↦ some r
  | none ↦ after_by fold p s
]

-- the rest of s from strings.Index(s, p) + len(p)
abbrev pub after : String → String → Option String
after = after_by (λ c. c)

-- strings.Contains(s, p)
abbrev pub contains : String → String → Bool
contains s p = elim (after p s) [ none ↦ false | some _ ↦ true ]

-- strings.Contains(strings.ToLower(s), p)
abbrev pub contains_lower : String → String → Bool
contains_lower s p = elim (after_by lower p s) [ none ↦ false | some _ ↦ true ]

-- s[strings.IndexByte(s, b):]
unfoldable pub from_byte : ℕ → String → Option String
from_byte b String.[] = none
from_byte b (String.◌∷◌ c s) = if code c == b then some (String.◌∷◌ c s) else from_byte b s

-- strings.EqualFold
unfoldable pub equal_fold : String → String → Bool
equal_fold String.[] String.[] = true
equal_fold String.[] (String.◌∷◌ d t) = false
equal_fold (String.◌∷◌ c s) String.[] = false
equal_fold (String.◌∷◌ c s) (String.◌∷◌ d t) =
    if lower (code c) == lower (code d) then equal_fold s t else false

runs : contains_lower "RPC: Loading blocks" "loading" ≡ true
unfolding after_by strip_by lower
runs = refl

-- unicode.IsSpace, in ASCII
abbrev pub is_space : ℕ → Bool
is_space c = leb 9 c && leb c 13 || c == 32

unfoldable pub trim_left : String → String
trim_left String.[] = ""
trim_left (String.◌∷◌ c s) = if is_space (code c) then trim_left s else String.◌∷◌ c s

-- without the space at its end
unfoldable pub trim_right : String → String
trim_right String.[] = ""
trim_right (String.◌∷◌ c s) = elim (trim_right s) [
  | String.[] ↦ if is_space (code c) then "" else String.◌∷◌ c ""
  | String.◌∷◌ d r ↦ String.◌∷◌ c (String.◌∷◌ d r)
]

-- strings.TrimSpace
abbrev pub trim : String → String
trim s = trim_right (trim_left s)

trims : trim " Stale work \n" ≡ "Stale work"
unfolding trim_right trim_left
trims = refl
