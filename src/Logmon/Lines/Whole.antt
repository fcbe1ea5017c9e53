-- ===== src/Logmon/Lines/Whole.antt =====
-- scanLines against a plain split of the text into lines.
use Prim.Native.Nat.{ℕ, zero, suc, ◌≤◌, ◌<◌}
use Prim.Native.String.{String}
use kamado_pool.Base.{
  ◌≡◌, refl, sym, ap, ◌∙◌, Bool, true, false, List, [], ◌∷◌, Option, none, some, if◌then◌else◌,
  str_eq, arith,
}
use kamado_pool.Base.Regexp.{is_empty, is_empty→not_eq}
use kamado_pool.Base.Cut.{size, first, join, size-join}
use kamado_pool.Logmon.Lines.{
  Ending, newline, full, ended, read_slice, drop_return, read_line, scan_lines,
}
use kamado_pool.Logmon.Lines.Split.{
  last_line, prepend, lines_of, shown, shown_lines, IsSlice, at_newline, at_end, at_full,
  read_slice-IsSlice,
}

-- the lines that are left, where the rest of the first one is skipped
skip : Bool → List (String × Bool) → List (String × Bool)
skip false ls = ls
skip true [] = []
skip true (l ∷ ls) = ls

first-join : (t u : String) → first (size t) (join t u) ≡ t
unfolding first size join
first-join String.[] u = refl
first-join (String.◌∷◌ c t) u = ap (String.◌∷◌ c) (first-join t u)

first-all : (t : String) → first (size t) t ≡ t
unfolding first size
first-all String.[] = refl
first-all (String.◌∷◌ c t) = ap (String.◌∷◌ c) (first-all t)

-- a line of n characters or more, of which the first n are known
shown-long :
    (n : ℕ) (t line : String) (b : Bool)
    → n ≤ size t
    → first n t ≡ line
    → shown n (t, b) ≡ (drop_return line).0
unfolding shown
shown-long n t line b long e = let cut = ap (λ x. (drop_return x).0) e in ground arith

prepend_long :
    (n : ℕ) (line : String) (ls : List (String × Bool))
    → size line ≡ n
    → 1 ≤ n
    → (l : String × Bool) × (prepend line ls ≡ l ∷ skip true ls)
      × (shown n l ≡ (drop_return line).0)
unfolding prepend last_line skip
prepend_long n String.[] [] exact pos = absurd (unfold size in omega (arith, exact, pos))
prepend_long n (String.◌∷◌ c t) [] exact pos =
    let line = String.◌∷◌ c t in
    (
      (line, false),
      refl,
      shown-long n line line false (omega (arith, exact))
          (ap (λ k. first k line) (sym exact) ∙ first-all line),
    )
prepend_long n line ((u, b) ∷ ls) exact pos = (
  (join line u, b),
  refl,
  shown-long n (join line u) line b (omega (arith, exact, size-join line u))
      (ap (λ k. first k (join line u)) (sym exact) ∙ first-join line u),
)

skip_return : (s : String) → skip true (lines_of (String.◌∷◌ "\r" s)) ≡ skip true (lines_of s)
unfolding lines_of prepend last_line skip
skip_return s = elim (lines_of s) as (λ ls. skip true (prepend "\r" ls) ≡ skip true ls) [
  | [] ↦ refl
  | l ∷ ls ↦ refl
]

-- scan_lines after the slice
after_slice : ℕ → ℕ → Bool → String × Ending × String → List String
after_slice n fuel skipping (line, ending, rest) =
    let (cut, dropped) = drop_return line in
    let read : Option (String × Bool × String) = elim ending [
      | newline ↦ some (cut, false, rest)
      | full ↦ some (cut, true, if dropped then String.◌∷◌ "\r" rest else rest)
      | ended ↦ if str_eq line "" then none else some (line, false, rest)
    ] in
    elim read [
      | none ↦ []
      | some (chunk, is_prefix, rest') ↦
          let later = scan_lines n fuel is_prefix rest' in
          if skipping then later else if str_eq chunk "" then later else chunk ∷ later
    ]

left_after :
    (dropped : Bool) (rest : String)
    → let rest' = if dropped then String.◌∷◌ "\r" rest else rest in
      (size rest' ≤ suc (size rest)) × (skip true (lines_of rest') ≡ skip true (lines_of rest))
left_after true rest = (unfold size in omega arith, skip_return rest)
left_after false rest = (omega arith, refl)

shown-short :
    (n : ℕ) (line : String) (b : Bool)
    → size line < n
    → shown n (line, b) ≡ (if b then (drop_return line).0 else line)
unfolding shown
shown-short n line b short = ground arith

skip_none : (n : ℕ) (b : Bool) → [] ≡ shown_lines n (skip b (last_line ""))
unfolding shown_lines skip last_line
skip_none n true = refl
skip_none n false = refl

-- what a step passes on, before what comes later
emitted :
    (n : ℕ) (skipping : Bool) (l : String × Bool) (ls : List (String × Bool)) (chunk : String)
    (later : List String)
    → shown n l ≡ chunk
    → later ≡ shown_lines n ls
    → (if skipping then later else if str_eq chunk "" then later else chunk ∷ later)
      ≡ shown_lines n (skip skipping (l ∷ ls))
unfolding shown_lines skip
emitted n true l ls chunk later e rest = rest
emitted n false l ls chunk later e rest = rw (e, rest) refl

-- the statement for one amount of fuel
IsEnough : ℕ → ℕ → Type 0
IsEnough n fuel =
    (skipping : Bool) (s : String)
    → size s < fuel
    → scan_lines n fuel skipping s ≡ shown_lines n (skip skipping (lines_of s))

scan_step :
    (n fuel : ℕ) (skipping : Bool) (s : String) (r : String × Ending × String)
    → 2 ≤ n
    → size s < suc fuel
    → IsEnough n fuel
    → IsSlice n s r
    → after_slice n fuel skipping r ≡ shown_lines n (skip skipping (lines_of s))
unfolding after_slice IsEnough skip last_line lines_of
scan_step n fuel skipping s _ big enough ih (at_newline line rest e short less) =
    emitted n skipping (line, true) (lines_of rest) _ _ (shown-short n line true short)
      (ih false rest (omega (arith, enough, less)))
    ∙ ap (λ ls. shown_lines n (skip skipping ls)) (sym e)
scan_step n fuel skipping s _ big enough ih (at_end String.[] e short same) =
    skip_none n skipping ∙ ap (λ ls. shown_lines n (skip skipping ls)) (sym e)
scan_step n fuel skipping s _ big enough ih (at_end (String.◌∷◌ c t) e short same) =
    let line = String.◌∷◌ c t in
    let filled : str_eq line "" ≡ false = is_empty→not_eq line (unfold is_empty in refl) in
    let none_left = ih false "" (unfold size in omega (arith, enough, same)) in
    rw (filled, after_slice)
      (emitted n skipping (line, false) [] line _ (shown-short n line false short) none_left
        ∙ ap (λ ls. shown_lines n (skip skipping ls)) (sym e))
scan_step n fuel skipping s _ big enough ih (at_full line rest e exact sum) =
    let (l, front, cut) = prepend_long n line (lines_of rest) exact (omega (arith, big)) in
    let dropped = (drop_return line).1 in
    let (small, same) = left_after dropped rest in
    emitted n skipping l (skip true (lines_of rest)) _ _ cut
      (ih true _ (omega (arith, enough, small, sum, big)) ∙ ap (shown_lines n) same)
    ∙ ap (λ ls. shown_lines n (skip skipping ls)) (sym (e ∙ front))

scan-IsEnough : (n fuel : ℕ) → 2 ≤ n → IsEnough n fuel
unfolding IsEnough scan_lines read_line after_slice
scan-IsEnough n zero big skipping s h = absurd (omega (arith, h))
scan-IsEnough n (suc fuel) big skipping s h =
    scan_step n fuel skipping s (read_slice n s) big h (scan-IsEnough n fuel big)
      (read_slice-IsSlice n s)

-- With a buffer of two bytes at least and more fuel than the text has characters, scanLines passes on
-- exactly the lines of the text that are not empty, in order, the last one without a newline
-- included. A line shorter than the buffer is passed on whole, without the carriage return before its
-- newline; of any other the first bytes, as many as the buffer has, without a carriage return at
-- their end. No line, however long, ends the scan or hides another.
pub scan_lines-lines_of :
    (n fuel : ℕ) (s : String)
    → 2 ≤ n
    → size s < fuel
    → scan_lines n fuel false s ≡ shown_lines n (lines_of s)
scan_lines-lines_of n fuel s big h = unfold IsEnough skip in scan-IsEnough n fuel big false s h
