-- ===== src/Base/Decimal.antt =====
-- Go's strconv in base 10: FormatUint and FormatInt, ParseUint and ParseInt with 64 bits.
use Prim.Native.Char.{Char, code}
use Prim.Native.Nat.{ℕ, zero, suc, ◌+◌, ◌-◌, ◌*◌, ◌/◌, ◌%◌, ◌^◌, ◌≤◌, ◌<◌}
use Prim.Native.String.{String}
use mathlib.Core.Path.{◌≡◌, refl, ap, ◌∙◌}
use mathlib.Core.Bool.{Bool, true, false, ◌&&◌}
use mathlib.Core.Option.{Option, none, some}
use native.Mathlib.Omega.{arith}
use kamado_pool.Base.Tests.{leb, ltb, ◌==◌, if◌then◌else◌, lt→ltb, ltb→lt, Bool-cases}
use mathlib.Core.Logic.{inl, inr}
use kamado_pool.Base.Word.{Int64, neg64}
use native.Mathlib.Nat.{pow-suc}

-- the character of a digit
unfoldable pub digit_char : ℕ → Char
digit_char zero = "0"
digit_char (suc zero) = "1"
digit_char (suc (suc zero)) = "2"
digit_char (suc (suc (suc zero))) = "3"
digit_char (suc (suc (suc (suc zero)))) = "4"
digit_char (suc (suc (suc (suc (suc zero))))) = "5"
digit_char (suc (suc (suc (suc (suc (suc zero)))))) = "6"
digit_char (suc (suc (suc (suc (suc (suc (suc zero))))))) = "7"
digit_char (suc (suc (suc (suc (suc (suc (suc (suc zero)))))))) = "8"
digit_char (suc (suc (suc (suc (suc (suc (suc (suc (suc d))))))))) = "9"

-- the digits of a number in front of a text; the first argument bounds how many there are
unfoldable pub put_digits : ℕ → ℕ → String → String
put_digits zero n out = out
put_digits (suc k) n out =
    let more = put_digits k (n / 10) (String.◌∷◌ (digit_char (n % 10)) out) in
    if ltb n 10 then String.◌∷◌ (digit_char n) out else more

-- FormatUint(n, 10): a uint64 has twenty digits at most
unfoldable pub format_uint : ℕ → String
format_uint n = put_digits 20 n ""

-- FormatInt(n, 10)
unfoldable pub format_int : Int64 → String
format_int n = if ltb n (2 ^ 63) then format_uint n else String.◌∷◌ "-" (format_uint (2 ^ 64 - n))

-- the digits of ParseUint after n; `none` is an error, also where the number needs more than 64 bits
unfoldable pub scan_digits : String → ℕ → Option ℕ
scan_digits String.[] n = some n
scan_digits (String.◌∷◌ c s) n =
    let m = n * 10 + (code c - 48) in
    if leb 48 (code c) && leb (code c) 57
    then (if leb (2 ^ 64) m then none else scan_digits s m)
    else none

-- ParseUint(s, 10, 64)
unfoldable pub parse_uint : String → Option ℕ
parse_uint String.[] = none
parse_uint (String.◌∷◌ c s) = scan_digits (String.◌∷◌ c s) 0

-- ParseInt(s, 10, 64) after the sign
unfoldable pub with_sign : Bool → Option ℕ → Option Int64
with_sign minus none = none
with_sign minus (some n) =
    if minus
    then (if ltb (2 ^ 63) n then none else some (neg64 n))
    else if leb (2 ^ 63) n
    then none
    else some n

-- ParseInt(s, 10, 64)
unfoldable pub parse_int : String → Option Int64
parse_int String.[] = none
parse_int (String.◌∷◌ c s) =
    if code c == b'-'
    then with_sign true (parse_uint s)
    else if code c == b'+'
    then with_sign false (parse_uint s)
    else with_sign false (parse_uint (String.◌∷◌ c s))

-- does a text begin with a digit
begins : String → Bool
begins String.[] = false
begins (String.◌∷◌ c s) = leb 48 (code c) && leb (code c) 57

pub code-digit_char : (d : ℕ) → d < 10 → code (digit_char d) ≡ 48 + d
unfolding digit_char
code-digit_char zero h = refl
code-digit_char (suc zero) h = refl
code-digit_char (suc (suc zero)) h = refl
code-digit_char (suc (suc (suc zero))) h = refl
code-digit_char (suc (suc (suc (suc zero)))) h = refl
code-digit_char (suc (suc (suc (suc (suc zero))))) h = refl
code-digit_char (suc (suc (suc (suc (suc (suc zero)))))) h = refl
code-digit_char (suc (suc (suc (suc (suc (suc (suc zero))))))) h = refl
code-digit_char (suc (suc (suc (suc (suc (suc (suc (suc zero)))))))) h = refl
code-digit_char (suc (suc (suc (suc (suc (suc (suc (suc (suc zero))))))))) h = refl
code-digit_char (suc (suc (suc (suc (suc (suc (suc (suc (suc (suc d)))))))))) h =
    absurd (omega (arith, h))

scan_digit :
    (n d : ℕ) (out : String)
    → d < 10
    → n * 10 + d < 2 ^ 64
    → scan_digits (String.◌∷◌ (digit_char d) out) n ≡ scan_digits out (n * 10 + d)
unfolding scan_digits
scan_digit n d out h small =
    let e = code-digit_char d h in
    let m : n * 10 + (code (digit_char d) - 48) ≡ n * 10 + d = omega (arith, e) in
    ground (arith, e, m, small, h)

scan_first :
    (n : ℕ) (out : String)
    → n < 10
    → n < 2 ^ 64
    → scan_digits (String.◌∷◌ (digit_char n) out) 0 ≡ scan_digits out n
scan_first n out h small =
    let same : 0 * 10 + n ≡ n = omega arith in
    scan_digit 0 n out h (omega (arith, small)) ∙ ap (scan_digits out) same

scan_digits-put_digits :
    (k n : ℕ) (out : String)
    → n < 10 ^ k
    → 1 ≤ k
    → n < 2 ^ 64
    → scan_digits (put_digits k n out) 0 ≡ scan_digits out n
unfolding put_digits
scan_digits-put_digits zero n out h pos small = absurd (omega (arith, pos))
scan_digits-put_digits (suc zero) n out h pos small =
    let below : n < 10 = omega (arith, h) in rw (lt→ltb n 10 below) (scan_first n out below small)
scan_digits-put_digits (suc (suc k)) n out h pos small =
    let power : 10 ^ suc (suc k) ≡ 10 ^ suc k * 10 = pow-suc 10 (suc k) in
    let cut : n / 10 < 10 ^ suc k = omega (arith, h, power) in
    let more =
      scan_digits-put_digits (suc k) (n / 10) (String.◌∷◌ (digit_char (n % 10)) out) cut
        (omega arith) (omega (arith, small)) in
    let last = scan_digit (n / 10) (n % 10) out (omega arith) (omega (arith, small)) in
    let whole : n / 10 * 10 + n % 10 ≡ n = omega arith in
    elim (Bool-cases (ltb n 10)) [
      | inl e ↦ rw e (scan_first n out (ltb→lt n 10 e) small)
      | inr e ↦ rw e (more ∙ last ∙ ap (scan_digits out) whole)
    ]

begins-digit : (d : ℕ) (s : String) → d < 10 → begins (String.◌∷◌ (digit_char d) s) ≡ true
unfolding begins
begins-digit d s h = ground (arith, code-digit_char d h)

begins-put_digits :
    (k n : ℕ) (out : String) → begins out ≡ true → begins (put_digits k n out) ≡ true
unfolding put_digits
begins-put_digits zero n out h = h
begins-put_digits (suc k) n out h = elim (Bool-cases (ltb n 10)) [
  | inl e ↦ rw e (begins-digit n out (ltb→lt n 10 e))
  | inr e ↦ rw e (begins-put_digits k (n / 10) _ (begins-digit (n % 10) out (omega arith)))
]

begins-format_uint : (n : ℕ) → begins (format_uint n) ≡ true
unfolding format_uint put_digits
begins-format_uint n = elim (Bool-cases (ltb n 10)) [
  | inl e ↦ rw e (begins-digit n "" (ltb→lt n 10 e))
  | inr e ↦ rw e (begins-put_digits 19 (n / 10) _ (begins-digit (n % 10) "" (omega arith)))
]

parse_uint-begins : (s : String) → begins s ≡ true → parse_uint s ≡ scan_digits s 0
unfolding begins parse_uint
parse_uint-begins String.[] h = ground (arith, h)
parse_uint-begins (String.◌∷◌ c s) h = refl

parse_int-begins : (s : String) → begins s ≡ true → parse_int s ≡ with_sign false (parse_uint s)
unfolding begins parse_int
parse_int-begins String.[] h = ground (arith, h)
parse_int-begins (String.◌∷◌ c s) h = ground (arith, h)

-- Every uint64 is read back from its print.
pub parse_uint-format_uint : (n : ℕ) → n < 2 ^ 64 → parse_uint (format_uint n) ≡ some n
unfolding format_uint
parse_uint-format_uint n h =
    parse_uint-begins (format_uint n) (begins-format_uint n)
    ∙ scan_digits-put_digits 20 n "" (omega (arith, h)) (omega arith) h
    ∙ unfold scan_digits in refl

-- Every int64 is read back from its print.
pub parse_int-format_int : (n : Int64) → n < 2 ^ 64 → parse_int (format_int n) ≡ some n
unfolding format_int
parse_int-format_int n h = elim (Bool-cases (ltb n (2 ^ 63))) [
  | inl e ↦ rw e (
      parse_int-begins (format_uint n) (begins-format_uint n)
      ∙ ap (with_sign false) (parse_uint-format_uint n h)
      ∙ unfold with_sign in ground (arith, e))
  | inr e ↦ rw e (
      unfold parse_int in
      ap (with_sign true) (parse_uint-format_uint (2 ^ 64 - n) (ground (arith, e)))
      ∙ unfold with_sign neg64 in ground (arith, e, h))
]
