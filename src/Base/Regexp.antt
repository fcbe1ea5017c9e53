-- ===== src/Base/Regexp.antt =====
-- Go's regexp, as far as the log patterns use it: a sequence of literals and of greedy repetitions of
-- one character class, some captured, matched with backtracking at the leftmost place.
use Prim.Native.Nat.{ℕ}
use Prim.Native.Char.{code}
use Prim.Native.String.{String}
use mathlib.Core.Path.{◌≡◌, refl, sym, ap, ◌∙◌}
use mathlib.Core.Logic.{inl, inr}
use mathlib.Core.Bool.{true≢false, Bool, true, false, not, ◌&&◌, ◌||◌}
use mathlib.Core.Option.{Option, none, some}
use mathlib.Core.List.{List, [], ◌∷◌}
use native.Mathlib.Omega.{arith}
use text.Mathlib.Text.{◌==◌ as str_eq}
use text.Mathlib.TextEquality.{eq_iff}
use kamado_pool.Base.Lists.{All}
use kamado_pool.Base.Tests.{leb, ◌==◌, if◌then◌else◌, Bool-cases}
use kamado_pool.Base.Text.{strip_by}

-- x*, x+ and (x+) for a class x
pub data Item : Type 0 where
  lit : String → Item
  star plus capture : (ℕ → Bool) → Item

-- the classes: \d, \w, \s, \S, the dot and [0-9a-fA-F]
abbrev pub digit : ℕ → Bool
digit c = leb b'0' c && leb c b'9'

abbrev pub word : ℕ → Bool
word c = digit c || (leb b'A' c && leb c b'Z') || (leb b'a' c && leb c b'z') || c == b'_'

abbrev pub space : ℕ → Bool
space c = c == 9 || c == 10 || c == 12 || c == 13 || c == 32

abbrev pub nonspace : ℕ → Bool
nonspace c = not (space c)

abbrev pub dot : ℕ → Bool
dot c = not (c == 10)

abbrev pub hex : ℕ → Bool
hex c = digit c || (leb b'A' c && leb c b'F') || (leb b'a' c && leb c b'f')

-- the first result of two attempts
abbrev pub or_else : {A : Type 0} → Option A → Option A → Option A
or_else none o = o
or_else (some a) o = some a

-- As many characters of a class as the continuation allows, at least one if asked; the continuation
-- gets the text they make and the rest.
unfoldable pub greedy :
    (ℕ → Bool) → (String → String → Option (List String)) → String → Option (List String)
greedy x k String.[] = k "" String.[]
greedy x k (String.◌∷◌ c s) =
    let longer = greedy x (λ text rest. k (String.◌∷◌ c text) rest) s in
    if x (code c) then or_else longer (k "" (String.◌∷◌ c s)) else k "" (String.◌∷◌ c s)

unfoldable pub greedy_some :
    (ℕ → Bool) → (String → String → Option (List String)) → String → Option (List String)
greedy_some x k String.[] = none
greedy_some x k (String.◌∷◌ c s) =
    if x (code c) then greedy x (λ text rest. k (String.◌∷◌ c text) rest) s else none

-- the captured texts of a match at the start of the text
unfoldable pub match_here : List Item → String → Option (List String)
match_here [] s = some []
match_here (lit p ∷ r) s = elim (strip_by (λ c. c) p s) [
  | none ↦ none
  | some rest ↦ match_here r rest
]
match_here (star x ∷ r) s = greedy x (λ text rest. match_here r rest) s
match_here (plus x ∷ r) s = greedy_some x (λ text rest. match_here r rest) s
match_here (capture x ∷ r) s =
    greedy_some x
      (λ text rest. elim (match_here r rest) [ none ↦ none | some found ↦ some (text ∷ found) ]) s

unfoldable pub match_any : List (List Item) → String → Option (List String)
match_any [] s = none
match_any (r ∷ rs) s = or_else (match_here r s) (match_any rs s)

-- FindStringSubmatch, without the whole match: the pattern is a list of alternatives
unfoldable pub find : List (List Item) → String → Option (List String)
find rs String.[] = match_any rs String.[]
find rs (String.◌∷◌ c s) = or_else (match_any rs (String.◌∷◌ c s)) (find rs s)

unfoldable pub is_empty : String → Bool
is_empty String.[] = true
is_empty (String.◌∷◌ c s) = false

pub is_empty→not_eq : (t : String) → is_empty t ≡ false → str_eq t "" ≡ false
unfolding is_empty
is_empty→not_eq t h = elim (Bool-cases (str_eq t "")) [
  | inl e ↦
      (let same : t ≡ "" = (eq_iff t "").0 e in absurd (true≢false (sym (ap is_empty same) ∙ h)))
  | inr e ↦ e
]

-- every captured text has a character
unfoldable pub IsFilled : Option (List String) → Type 0
IsFilled none = Unit
IsFilled (some ts) = All (λ t. is_empty t ≡ false) ts

or_else-IsFilled : (o p : Option (List String)) → IsFilled o → IsFilled p → IsFilled (or_else o p)
or_else-IsFilled none p h k = k
or_else-IsFilled (some ts) p h k = h

greedy-IsFilled :
    (x : ℕ → Bool) (k : String → String → Option (List String)) (s : String)
    → ((text rest : String) → IsFilled (k text rest))
    → IsFilled (greedy x k s)
unfolding greedy
greedy-IsFilled x k String.[] h = h "" String.[]
greedy-IsFilled x k (String.◌∷◌ c s) h =
    let longer =
      greedy-IsFilled x (λ text rest. k (String.◌∷◌ c text) rest) s
        (λ text rest. h (String.◌∷◌ c text) rest) in
    elim (x (code c))
      as (λ b. IsFilled (
        if b
        then or_else (greedy x (λ text rest. k (String.◌∷◌ c text) rest) s) (k "" (String.◌∷◌ c s))
        else k "" (String.◌∷◌ c s))) [
          | true ↦ or_else-IsFilled _ _ longer (h "" (String.◌∷◌ c s))
          | false ↦ h "" (String.◌∷◌ c s)
        ]

greedy_some-IsFilled :
    (x : ℕ → Bool) (k : String → String → Option (List String)) (s : String)
    → ((text rest : String) → is_empty text ≡ false → IsFilled (k text rest))
    → IsFilled (greedy_some x k s)
unfolding greedy_some
greedy_some-IsFilled x k String.[] h = unfold IsFilled in tt
greedy_some-IsFilled x k (String.◌∷◌ c s) h =
    elim (x (code c))
      as (λ b.
        IsFilled (if b then greedy x (λ text rest. k (String.◌∷◌ c text) rest) s else none)) [
          | true ↦
              greedy-IsFilled x _ s
                (λ text rest. h (String.◌∷◌ c text) rest (unfold is_empty in refl))
          | false ↦ unfold IsFilled in tt
        ]

match_here-IsFilled : (r : List Item) (s : String) → IsFilled (match_here r s)
unfolding match_here IsFilled
match_here-IsFilled [] s = unfold IsFilled in tt
match_here-IsFilled (lit p ∷ r) s =
    elim (strip_by (λ c. c) p s)
      as (λ o. IsFilled (elim o [ none ↦ none | some rest ↦ match_here r rest ])) [
        | none ↦ unfold IsFilled in tt
        | some rest ↦ match_here-IsFilled r rest
      ]
match_here-IsFilled (star x ∷ r) s = greedy-IsFilled x _ s (λ text rest. match_here-IsFilled r rest)
match_here-IsFilled (plus x ∷ r) s =
    greedy_some-IsFilled x _ s (λ text rest _. match_here-IsFilled r rest)
match_here-IsFilled (capture x ∷ r) s =
    greedy_some-IsFilled x _ s (λ text rest ne. ground (arith, match_here-IsFilled r rest))

match_any-IsFilled : (rs : List (List Item)) (s : String) → IsFilled (match_any rs s)
unfolding match_any
match_any-IsFilled [] s = unfold IsFilled in tt
match_any-IsFilled (r ∷ rs) s =
    or_else-IsFilled _ _ (match_here-IsFilled r s) (match_any-IsFilled rs s)

pub find-IsFilled : (rs : List (List Item)) (s : String) → IsFilled (find rs s)
unfolding find
find-IsFilled rs String.[] = match_any-IsFilled rs String.[]
find-IsFilled rs (String.◌∷◌ c s) =
    or_else-IsFilled _ _ (match_any-IsFilled rs (String.◌∷◌ c s)) (find-IsFilled rs s)

accepted :
    find
      ((lit "client "
          ∷ plus nonspace
          ∷ lit " diff "
          ∷ capture digit
          ∷ lit "/"
          ∷ star dot
          ∷ lit ": "
          ∷ capture hex
          ∷ [])
        ∷ [])
      "Accepted client a:b share diff  client 1 diff 42/7:8: 9: 0aG"
    ≡ some ("42" ∷ "0a" ∷ [])
unfolding find match_any match_here greedy_some greedy strip_by
accepted = refl
