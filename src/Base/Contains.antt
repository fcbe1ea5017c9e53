-- ===== src/Base/Contains.antt =====
-- strings.Contains(strings.ToLower(s), p), against the places of a text where another one stands.
use Prim.Native.Char.{code}
use kamado_pool.Base.{
  ◌≡◌, refl, sym, ◌∙◌, ◌⊎◌, inl, inr, Bool, true, false, ◌||◌, List, [], ◌∷◌, Option, none, some,
  String, ◌==◌, arith, Bool-cases, Option-cases,
}
use kamado_pool.Base.Text.{lower, strip_by, after_by, contains_lower}

-- The text begins with p, when its letters are read in lower case.
abbrev pub Starts : String → String → Type 0
Starts String.[] s = Unit
Starts (String.◌∷◌ c p) String.[] = ⊥
Starts (String.◌∷◌ c p) (String.◌∷◌ d s) = (code c ≡ lower (code d)) × Starts p s

-- The text has p somewhere, when its letters are read in lower case.
abbrev pub Holds : String → String → Type 0
Holds p String.[] = Starts p ""
Holds p (String.◌∷◌ d s) = Starts p (String.◌∷◌ d s) ⊎ Holds p s

-- The text has one of the phrases.
abbrev pub HoldsOne : List String → String → Type 0
HoldsOne [] s = ⊥
HoldsOne (p ∷ ps) s = Holds p s ⊎ HoldsOne ps s

abbrev is_some : Option String → Bool
is_some o = elim o [ none ↦ false | some _ ↦ true ]

strip_by-Starts : (p s : String) → is_some (strip_by lower p s) ≡ true → Starts p s
unfolding strip_by
strip_by-Starts String.[] s h = tt
strip_by-Starts (String.◌∷◌ c p) String.[] h = absurd (ground (arith, h))
strip_by-Starts (String.◌∷◌ c p) (String.◌∷◌ d s) h =
    let ih = strip_by-Starts p s in
    elim (Bool-cases (code c == lower (code d))) [
      | inl e ↦ (ground (arith, e), ih (sym (rw e refl) ∙ h))
      | inr e ↦ absurd (ground (arith, e, h))
    ]

Starts-strip_by : (p s : String) → Starts p s → is_some (strip_by lower p s) ≡ true
unfolding strip_by
Starts-strip_by String.[] s h = refl
Starts-strip_by (String.◌∷◌ c p) String.[] h = absurd h
Starts-strip_by (String.◌∷◌ c p) (String.◌∷◌ d s) (e, h) =
    let ih = Starts-strip_by p s h in ground (arith, e, ih)

pub contains_lower-Holds : (p s : String) → contains_lower s p ≡ true → Holds p s
unfolding after_by
contains_lower-Holds p String.[] h = strip_by-Starts p "" h
contains_lower-Holds p (String.◌∷◌ d s) h =
    let ih = contains_lower-Holds p s in
    let here = strip_by-Starts p (String.◌∷◌ d s) in
    elim (Option-cases (strip_by lower p (String.◌∷◌ d s))) [
      | inl e ↦ inr (ih (ground (arith, e, h)))
      | inr (r, e) ↦ inl (here (rw e refl))
    ]

pub Holds-contains_lower : (p s : String) → Holds p s → contains_lower s p ≡ true
unfolding after_by
Holds-contains_lower p String.[] h = Starts-strip_by p "" h
Holds-contains_lower p (String.◌∷◌ d s) (inl h) =
    let here = Starts-strip_by p (String.◌∷◌ d s) h in ground (arith, here)
Holds-contains_lower p (String.◌∷◌ d s) (inr h) =
    let ih = Holds-contains_lower p s h in ground (arith, ih)

-- whether the text has one of the phrases
abbrev pub contains_one : List String → String → Bool
contains_one [] s = false
contains_one (p ∷ ps) s = contains_lower s p || contains_one ps s

pub contains_one-HoldsOne :
    (ps : List String) (s : String) → contains_one ps s ≡ true → HoldsOne ps s
contains_one-HoldsOne [] s h = absurd (ground (arith, h))
contains_one-HoldsOne (p ∷ ps) s h =
    let ih = contains_one-HoldsOne ps s in
    elim (Bool-cases (contains_lower s p)) [
      | inl e ↦ inl (contains_lower-Holds p s e)
      | inr e ↦ inr (ih (ground (arith, e, h)))
    ]

pub HoldsOne-contains_one :
    (ps : List String) (s : String) → HoldsOne ps s → contains_one ps s ≡ true
HoldsOne-contains_one [] s h = absurd h
HoldsOne-contains_one (p ∷ ps) s (inl h) =
    let here = Holds-contains_lower p s h in ground (arith, here)
HoldsOne-contains_one (p ∷ ps) s (inr h) =
    let ih = HoldsOne-contains_one ps s h in ground (arith, ih)
