-- ===== src/Base/Cut.antt =====
-- Texts measured, cut and joined.
use Prim.Native.Nat.{ℕ, zero, suc, ◌+◌, ◌-◌, ◌≤◌}
use Prim.Native.String.{String}
use mathlib.Core.Path.{◌≡◌, refl, sym, ap, ◌∙◌}
use native.Mathlib.Omega.{arith}

-- the number of characters
unfoldable pub size : String → ℕ
size String.[] = 0
size (String.◌∷◌ c s) = suc (size s)

unfoldable pub first : ℕ → String → String
first zero s = ""
first (suc n) String.[] = ""
first (suc n) (String.◌∷◌ c s) = String.◌∷◌ c (first n s)

-- the text without its first n characters
unfoldable pub after_first : ℕ → String → String
after_first zero s = s
after_first (suc n) String.[] = ""
after_first (suc n) (String.◌∷◌ c s) = after_first n s

unfoldable pub join : String → String → String
join String.[] t = t
join (String.◌∷◌ c s) t = String.◌∷◌ c (join s t)

pub join-nil : (s : String) → join s "" ≡ s
unfolding join
join-nil String.[] = refl
join-nil (String.◌∷◌ c s) = ap (String.◌∷◌ c) (join-nil s)

pub join_assoc : (s t u : String) → join (join s t) u ≡ join s (join t u)
unfolding join
join_assoc String.[] t u = refl
join_assoc (String.◌∷◌ c s) t u = ap (String.◌∷◌ c) (join_assoc s t u)

pub size-join : (s t : String) → size (join s t) ≡ size s + size t
unfolding size join
size-join String.[] t = omega arith
size-join (String.◌∷◌ c s) t = omega (arith, size-join s t)

pub join-first : (n : ℕ) (s : String) → join (first n s) (after_first n s) ≡ s
unfolding join first after_first
join-first zero s = refl
join-first (suc n) String.[] = refl
join-first (suc n) (String.◌∷◌ c s) = ap (String.◌∷◌ c) (join-first n s)

pub size-first-le : (n : ℕ) (s : String) → size (first n s) ≤ n
unfolding size first
size-first-le zero s = omega arith
size-first-le (suc n) String.[] = omega arith
size-first-le (suc n) (String.◌∷◌ c s) = omega (arith, size-first-le n s)

pub size-after_first : (n : ℕ) (s : String) → size (after_first n s) ≡ size s - n
unfolding size after_first
size-after_first zero s = omega arith
size-after_first (suc n) String.[] = omega arith
size-after_first (suc n) (String.◌∷◌ c s) = omega (arith, size-after_first n s)

-- a cut in the front part of a text
pub after_first-join :
    (n : ℕ) (s t : String) → n ≤ size s → after_first n (join s t) ≡ join (after_first n s) t
unfolding size after_first join
after_first-join zero s t h = refl
after_first-join (suc n) String.[] t h = absurd (omega arith)
after_first-join (suc n) (String.◌∷◌ c s) t h = after_first-join n s t (omega (arith, h))

cut_eq : (s : String) {n m : ℕ} → n ≡ m → after_first n s ≡ after_first m s
cut_eq s = ap (λ k. after_first k s)

-- a cut behind the front part of a text
pub after_first-behind :
    (n : ℕ) (s t : String) → after_first (size s + n) (join s t) ≡ after_first n t
unfolding size after_first join
after_first-behind n String.[] t = cut_eq t (omega arith)
after_first-behind n (String.◌∷◌ c s) t =
    cut_eq (String.◌∷◌ c (join s t)) {m = suc (size s + n)} (omega arith) ∙ after_first-behind n s t

after_first-nil : (n : ℕ) → after_first n "" ≡ ""
unfolding after_first
after_first-nil zero = refl
after_first-nil (suc n) = refl

pub after_first_twice :
    (n m : ℕ) (s : String) → after_first m (after_first n s) ≡ after_first (n + m) s
unfolding after_first
after_first_twice zero m s = cut_eq s (omega arith)
after_first_twice (suc n) m String.[] = after_first-nil m ∙ sym (after_first-nil (suc n + m))
after_first_twice (suc n) m (String.◌∷◌ c s) =
    after_first_twice n m s ∙ cut_eq (String.◌∷◌ c s) {n = suc (n + m)} (omega arith)
