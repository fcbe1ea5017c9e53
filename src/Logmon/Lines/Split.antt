-- ===== src/Logmon/Lines/Split.antt =====
-- A plain split of a text into lines, and what a slice of bufio.Reader is to it.
use Prim.Native.Char.{Char, code}
use Prim.Native.Nat.{ℕ, zero, suc, ◌+◌, ◌<◌}
use Prim.Native.String.{String}
use kamado_pool.Base.{
  ◌≡◌, refl, ap, ◌∙◌, Bool, true, false, List, [], ◌∷◌, ◌==◌, ltb, if◌then◌else◌, str_eq,
  Bool-cases, inl, inr, arith,
}
use kamado_pool.Base.Cut.{size, first, join}
use kamado_pool.Logmon.Lines.{Ending, newline, full, ended, read_slice, drop_return}

-- a last line without a newline, if there is one
unfoldable pub last_line : String → List (String × Bool)
last_line String.[] = []
last_line (String.◌∷◌ c s) = (String.◌∷◌ c s, false) ∷ []

-- a text in front of the first line
unfoldable pub prepend : String → List (String × Bool) → List (String × Bool)
prepend t [] = last_line t
prepend t ((u, b) ∷ ls) = (join t u, b) ∷ ls

-- the lines of a text, each with whether a newline ends it
unfoldable pub lines_of : String → List (String × Bool)
unfolding prepend last_line join
lines_of String.[] = []
lines_of (String.◌∷◌ c s) =
    let rest = lines_of s in
    if code c == 10 then ("", true) ∷ rest else prepend (String.◌∷◌ c "") rest

-- A line as it is passed on: of a line of n characters or more, the first n; without a carriage
-- return at the end, unless the end of the file comes first.
unfoldable pub shown : ℕ → String × Bool → String
unfolding first
shown n (line, terminated) =
    if ltb (size line) n
    then (if terminated then (drop_return line).0 else line)
    else (drop_return (first n line)).0

-- the lines that are not empty, as they are passed on
unfoldable pub shown_lines : ℕ → List (String × Bool) → List String
shown_lines n [] = []
shown_lines n (l ∷ ls) =
    let rest = shown_lines n ls in if str_eq (shown n l) "" then rest else shown n l ∷ rest

-- what a slice of the input is to its lines
pub data IsSlice (n : ℕ) (s : String) : String × Ending × String → Type 0 where
  at_newline :
      (line rest : String)
      → lines_of s ≡ (line, true) ∷ lines_of rest
      → size line < n
      → size rest < size s
      → IsSlice n s (line, newline, rest)
  at_end :
      (line : String)
      → lines_of s ≡ last_line line
      → size line < n
      → size line ≡ size s
      → IsSlice n s (line, ended, "")
  at_full :
      (line rest : String)
      → lines_of s ≡ prepend line (lines_of rest)
      → size line ≡ n
      → size rest + n ≡ size s
      → IsSlice n s (line, full, rest)

lines_of-cons :
    (c : Char) (s : String)
    → (code c == 10) ≡ false
    → lines_of (String.◌∷◌ c s) ≡ prepend (String.◌∷◌ c "") (lines_of s)
unfolding lines_of
lines_of-cons c s h = rw h refl

prepend-last_line :
    (c : Char) (t : String) → prepend (String.◌∷◌ c "") (last_line t) ≡ last_line (String.◌∷◌ c t)
unfolding prepend last_line join
prepend-last_line c String.[] = refl
prepend-last_line c (String.◌∷◌ d t) = refl

prepend_twice :
    (c : Char) (t : String) (ls : List (String × Bool))
    → prepend (String.◌∷◌ c "") (prepend t ls) ≡ prepend (String.◌∷◌ c t) ls
unfolding prepend join
prepend_twice c t [] = prepend-last_line c t
prepend_twice c t ((u, b) ∷ ls) = refl

prepend_first :
    (c : Char) (t : String) (b : Bool) (ls : List (String × Bool))
    → prepend (String.◌∷◌ c "") ((t, b) ∷ ls) ≡ (String.◌∷◌ c t, b) ∷ ls
unfolding prepend join
prepend_first c t b ls = refl

IsSlice-cons :
    (n : ℕ) (c : Char) (s : String) (r : String × Ending × String)
    → (code c == 10) ≡ false
    → IsSlice n s r
    → IsSlice (suc n) (String.◌∷◌ c s) (String.◌∷◌ c r.0, r.1, r.2)
IsSlice-cons n c s _ h (at_newline line rest e short less) =
    at_newline _ rest
      (lines_of-cons c s h
        ∙ ap (prepend (String.◌∷◌ c "")) e
        ∙ prepend_first c line true (lines_of rest))
      (unfold size in omega (arith, short)) (unfold size in omega (arith, less))
IsSlice-cons n c s _ h (at_end line e short same) =
    at_end _ (lines_of-cons c s h ∙ ap (prepend (String.◌∷◌ c "")) e ∙ prepend-last_line c line)
      (unfold size in omega (arith, short)) (unfold size in omega (arith, same))
IsSlice-cons n c s _ h (at_full line rest e exact sum) =
    at_full _ rest
      (lines_of-cons c s h
        ∙ ap (prepend (String.◌∷◌ c "")) e
        ∙ prepend_twice c line (lines_of rest))
      (unfold size in omega (arith, exact)) (unfold size in omega (arith, sum))

prepend_nothing : (ls : List (String × Bool)) → ls ≡ prepend "" ls
unfolding prepend last_line join
prepend_nothing [] = refl
prepend_nothing ((u, b) ∷ ls) = refl

pub read_slice-IsSlice : (n : ℕ) (s : String) → IsSlice n s (read_slice n s)
unfolding read_slice
read_slice-IsSlice zero s =
    at_full "" s (prepend_nothing (lines_of s)) (unfold size in refl) (omega arith)
read_slice-IsSlice (suc n) String.[] =
    at_end "" (unfold lines_of last_line in refl) (unfold size in omega arith) refl
read_slice-IsSlice (suc n) (String.◌∷◌ c s) = elim (Bool-cases (code c == 10)) [
  | inl h ↦ rw h (
      at_newline "" s (unfold lines_of in rw h refl) (unfold size in omega arith)
        (unfold size in omega arith))
  | inr h ↦ rw h (IsSlice-cons n c s (read_slice n s) h (read_slice-IsSlice n s))
]
