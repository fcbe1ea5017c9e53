-- ===== src/Logmon/Follow/Reads.antt =====
-- What ReadString returns, however its buffer is refilled.
use Prim.Native.Char.{code}
use Prim.Native.Nat.{ℕ, zero, suc, ◌+◌, ◌-◌, ◌*◌, ◌≤◌, ◌<◌}
use Prim.Native.String.{String}
use kamado_pool.Base.{
  ◌≡◌, refl, sym, ap, ◌∙◌, Bool, true, false, Option, none, some, ◌==◌, leb, str_eq, eq_iff,
  Bool-cases, Option-cases, inl, inr, arith,
}
use kamado_pool.Base.Cut.{
  size, first, after_first, join, join-nil, join_assoc, size-join, join-first, size-after_first,
  size-first-le,
}
use kamado_pool.Logmon.Follow.{cut_line, read_string}

-- a text in front of the first line
abbrev front : String → Option (String × String) → Option (String × String)
front s none = none
front s (some (l, r)) = some (join s l, r)

pub cut_line-behind :
    (s t : String) → cut_line s ≡ none → cut_line (join s t) ≡ front s (cut_line t)
unfolding cut_line join
cut_line-behind String.[] t h = elim (cut_line t) as (λ o. o ≡ front "" o) [
  | none ↦ refl
  | some (l, r) ↦ refl
]
cut_line-behind (String.◌∷◌ c s) t h = elim (Bool-cases (code c == 10)) [
  | inl e ↦ ground (arith, e, h)
  | inr e ↦ elim (Option-cases (cut_line s)) [
    | inl n ↦ ground (arith, e, cut_line-behind s t n)
    | inr (p, f) ↦ ground (arith, e, f, h)
  ]
]

pub cut_line-front :
    (s t l r : String) → cut_line s ≡ some (l, r) → cut_line (join s t) ≡ some (l, join r t)
unfolding cut_line join
cut_line-front String.[] t l r h = ground (arith, h)
cut_line-front (String.◌∷◌ c s) t l r h = elim (Bool-cases (code c == 10)) [
  | inl e ↦ ground (arith, e, h)
  | inr e ↦ elim (Option-cases (cut_line s)) [
    | inl n ↦ ground (arith, e, n, h)
    | inr (p, f) ↦ ground (arith, e, f, h, cut_line-front s t p.0 p.1 f)
  ]
]

pub join-cut_line : (s l r : String) → cut_line s ≡ some (l, r) → join l r ≡ s
unfolding cut_line join
join-cut_line String.[] l r h = ground (arith, h)
join-cut_line (String.◌∷◌ c s) l r h = elim (Bool-cases (code c == 10)) [
  | inl e ↦ ground (arith, e, h)
  | inr e ↦ elim (Option-cases (cut_line s)) [
    | inl n ↦ ground (arith, e, n, h)
    | inr (p, f) ↦ ground (arith, e, f, h, join-cut_line s p.0 p.1 f)
  ]
]

-- the first line of a text, or all of it where it has no newline
pub data IsRead (t : String) : String × Bool × String × String → Type 0 where
  at_newline :
      (line later rest : String)
      → cut_line t ≡ some (line, join later rest)
      → IsRead t (line, true, later, rest)
  at_end : (line : String) → line ≡ t → cut_line t ≡ none → IsRead t (line, false, "", "")

-- the same text, cut elsewhere
IsRead-eq : (t u : String) {r : String × Bool × String × String} → t ≡ u → IsRead t r → IsRead u r
IsRead-eq t u e (at_newline line later rest h) =
    at_newline line later rest (ap cut_line (sym e) ∙ h)
IsRead-eq t u e (at_end line h k) = at_end line (h ∙ e) (ap cut_line (sym e) ∙ k)

nil_of_test : (s : String) → str_eq s "" ≡ true → s ≡ ""
nil_of_test s = (eq_iff s "").0

size_of_test : (s : String) → str_eq s "" ≡ false → 1 ≤ size s
unfolding size
size_of_test String.[] h = ground (arith, h)
size_of_test (String.◌∷◌ c s) h = omega arith

size-fill :
    (k : ℕ) (b s : String)
    → 1 ≤ k
    → str_eq s "" ≡ false
    → 2 * size (after_first k s) + size (join b (first k s)) + 1 ≤ 2 * size s + size b
size-fill k b s h e = omega (
  arith,
  h,
  size_of_test s e,
  size-join b (first k s),
  size-join (first k s) (after_first k s),
  ap size (join-first k s),
  size-after_first k s,
)

-- With a buffer of a byte or more and enough fuel, ReadString reads the first line.
pub read_string-IsRead :
    (n fuel : ℕ) (parts buffered rest : String)
    → 1 ≤ n
    → cut_line parts ≡ none
    → 2 * size rest + size buffered < fuel
    → IsRead (join parts (join buffered rest)) (read_string n fuel parts buffered rest)
unfolding read_string join
read_string-IsRead n zero parts buffered rest big plain enough = absurd (omega (arith, enough))
read_string-IsRead n (suc fuel) parts buffered rest big plain enough =
    elim (Option-cases (cut_line buffered)) [
      | inr ((l, r), e) ↦
          rw (e, read_string)
            (at_newline (join parts l) r rest (
              cut_line-behind parts (join buffered rest) plain
              ∙ ap (front parts) (cut_line-front buffered rest l r e)))
      | inl none_yet ↦
          rw (none_yet, read_string)
            (elim (Bool-cases (leb n (size buffered))) [
              | inl is_full ↦ rw is_full (
                  IsRead-eq _ _ (join_assoc parts buffered rest) (
                    read_string-IsRead n fuel (join parts buffered) "" rest big
                      (cut_line-behind parts buffered plain ∙ ap (front parts) none_yet)
                      (unfold size in ground (arith, enough, big, is_full))))
              | inr e ↦ rw e (elim (Bool-cases (str_eq rest "")) [
                | inl over ↦
                    let same : join parts buffered ≡ join parts (join buffered rest) =
                      ap (join parts)
                        (sym (ap (join buffered) (nil_of_test rest over) ∙ join-nil buffered)) in
                    rw over (
                      at_end (join parts buffered) same (
                        ap cut_line (sym same)
                        ∙ cut_line-behind parts buffered plain
                        ∙ ap (front parts) none_yet))
                | inr more ↦ rw more (
                    let free = n - size buffered in
                    IsRead-eq _ _
                      (ap (join parts) (
                        join_assoc buffered (first free rest) (after_first free rest)
                        ∙ ap (join buffered) (join-first free rest)))
                      (read_string-IsRead n fuel parts (join buffered (first free rest))
                        (after_first free rest) big plain
                        (omega
                          (arith, enough, size-fill free buffered rest (ground (arith, e)) more))))
              ])
            ])
    ]

-- What a read leaves is the end of what the file had, and at most n bytes stay buffered.
pub record IsLeft (n : ℕ) (rest : String) (r : String × Bool × String × String) : Type 0 where
  pub taken : String
  pub parts : rest ≡ join taken r.3
  pub fits : size r.2 ≤ n

-- after a read of k characters
IsLeft-fill :
    (n k : ℕ) (rest : String) {r : String × Bool × String × String}
    → IsLeft n (after_first k rest) r
    → IsLeft n rest r
IsLeft-fill n k rest {r} h = record {
  taken = join (first k rest) h.taken;
  parts =
      sym (join-first k rest)
      ∙ ap (join (first k rest)) h.parts
      ∙ sym (join_assoc (first k rest) h.taken r.3);
  fits = h.fits;
}

pub read_string-IsLeft :
    (n fuel : ℕ) (parts buffered rest : String)
    → size buffered ≤ n
    → IsLeft n rest (read_string n fuel parts buffered rest)
unfolding read_string
read_string-IsLeft n zero parts buffered rest h = record {
  taken = "";
  parts = unfold join in refl;
  fits = h;
}
read_string-IsLeft n (suc fuel) parts buffered rest h = elim (Option-cases (cut_line buffered)) [
  | inr ((l, r), e) ↦
      rw (e, read_string)
        (record {
          taken = "";
          parts = unfold join in refl;
          fits = omega (arith, h, size-join l r, ap size (join-cut_line buffered l r e));
        })
  | inl none_yet ↦
      rw (none_yet, read_string)
        (elim (Bool-cases (leb n (size buffered))) [
          | inl is_full ↦
              rw (is_full, read_string)
                (read_string-IsLeft n fuel (join parts buffered) "" rest
                  (unfold size in omega (arith, h)))
          | inr e ↦
              rw (e, read_string)
                (elim (Bool-cases (str_eq rest "")) [
                  | inl over ↦
                      rw (over, read_string)
                        (record {
                          taken = "";
                          parts = unfold join in nil_of_test rest over;
                          fits = unfold size in omega arith;
                        })
                  | inr more ↦
                      rw (more, read_string)
                        (let free = n - size buffered in
                          IsLeft-fill n free rest (
                            read_string-IsLeft n fuel parts (join buffered (first free rest))
                              (after_first free rest)
                              (omega (
                                arith,
                                h,
                                size-join buffered (first free rest),
                                size-first-le free rest,
                              ))))
                ])
        ])
]
