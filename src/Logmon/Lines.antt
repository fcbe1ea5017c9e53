-- ===== src/Logmon/Lines.antt =====
-- api/internal/logmon/tailer.go: scanLines, over bufio.Reader.ReadLine with a buffer of n bytes.
use Prim.Native.Char.{code}
use Prim.Native.Nat.{ℕ, zero, suc}
use Prim.Native.String.{String}
use kamado_pool.Base.{
  ◌≡◌, refl, Bool, true, false, List, [], ◌∷◌, Option, none, some, ◌==◌, if◌then◌else◌, str_eq,
}
pub mod Split
pub mod Whole

-- how a slice of the input ends: at a newline, at the end of the buffer, or at the end of the file
pub data Ending : Type 0 where
  newline full ended : Ending

-- ReadSlice('\n'), without the newline: the slice, how it ends, and the rest of the input
unfoldable pub read_slice : ℕ → String → String × Ending × String
read_slice zero s = ("", full, s)
read_slice (suc n) String.[] = ("", ended, "")
read_slice (suc n) (String.◌∷◌ c s) =
    let (line, ending, rest) = read_slice n s in
    if code c == 10 then ("", newline, s) else (String.◌∷◌ c line, ending, rest)

-- a text without a carriage return at its end, and whether there was one
unfoldable pub drop_return : String → String × Bool
drop_return String.[] = ("", false)
drop_return (String.◌∷◌ c String.[]) = if code c == 13 then ("", true) else (String.◌∷◌ c "", false)
drop_return (String.◌∷◌ c (String.◌∷◌ d s)) =
    let (r, dropped) = drop_return (String.◌∷◌ d s) in (String.◌∷◌ c r, dropped)

-- ReadLine: the chunk, isPrefix and the rest; `none` at the end of the file
unfoldable pub read_line : ℕ → String → Option (String × Bool × String)
read_line n s =
    let (line, ending, rest) = read_slice n s in
    let (cut, dropped) = drop_return line in
    elim ending [
      | newline ↦ some (cut, false, rest)
      | full ↦ some (cut, true, if dropped then String.◌∷◌ "\r" rest else rest)
      | ended ↦ if str_eq line "" then none else some (line, false, rest)
    ]

-- The lines given to `fn`, in order; the second argument is fuel and the third is `skipping`.
unfoldable pub scan_lines : ℕ → ℕ → Bool → String → List String
scan_lines n zero skipping s = []
scan_lines n (suc fuel) skipping s = elim (read_line n s) [
  | none ↦ []
  | some (chunk, is_prefix, rest) ↦
      let later = scan_lines n fuel is_prefix rest in
      if skipping then later else if str_eq chunk "" then later else chunk ∷ later
]

cuts : scan_lines 4 20 false "abcdefghi\n\nxyz\r\nkl" ≡ "abcd" ∷ "xyz" ∷ "kl" ∷ []
unfolding scan_lines read_line read_slice drop_return
cuts = refl
