-- ===== src/Main/Cursor.antt =====
-- api/cmd/kamado-api/main.go: the cursor of the log tailer, kept in the table kv.
use Prim.Native.Char.{Char, code}
use Prim.Native.Nat.{ℕ, zero, suc, ◌/◌, ◌%◌, ◌^◌, ◌<◌}
use Prim.Native.String.{String}
use kamado_pool.Base.{
  ◌≡◌, refl, ap, ◌∙◌, Bool, true, false, Option, none, some, ◌==◌, ltb, ltb→lt, if◌then◌else◌,
  str_eq, Bool-cases, inl, inr, arith,
}
use kamado_pool.Base.Word.{Int64}
use kamado_pool.Base.Cut.{join}
use kamado_pool.Base.Decimal.{
  digit_char, put_digits, format_uint, format_int, parse_uint, parse_int, parse_uint-format_uint,
  parse_int-format_int, code-digit_char,
}
use kamado_pool.Store.Table.{BlockStore}
use kamado_pool.Store.Blocks.{get_kv, set_kv, upsert}
use kamado_pool.Store.Laws.{IsFaultless, exec-faultless}
use kamado_pool.Base.Regexp.{is_empty, is_empty→not_eq}
use kamado_pool.State.Restore.Saved.{get_kv-faultless}
use kamado_pool.State.Restore.Guard.{lookup, lookup-upsert}

abbrev pub cursor_key : String
cursor_key = "logmon_cursor"

-- strings.SplitN(v, ":", 2), where it has two parts
unfoldable pub split_colon : String → Option (String × String)
split_colon String.[] = none
split_colon (String.◌∷◌ c s) =
    if code c == b':'
    then some ("", s)
    else elim (split_colon s) [ none ↦ none | some (l, r) ↦ some (String.◌∷◌ c l, r) ]

-- fmt.Sprintf("%d:%d", ino, off)
unfoldable pub print_cursor : ℕ → Int64 → String
print_cursor ino off = join (format_uint ino) (String.◌∷◌ ":" (format_int off))

unfoldable pub both : Option ℕ → Option Int64 → Option (ℕ × Int64)
both (some ino) (some off) = some (ino, off)
both _ _ = none

-- the text that GetKV returned; `none` is `ok == false`
unfoldable pub parse_cursor : String → Option (ℕ × Int64)
unfolding both
parse_cursor v = if str_eq v "" then none else elim (split_colon v) [
  | none ↦ none
  | some (ino, off) ↦ both (parse_uint ino) (parse_int off)
]

module _ {F : Type 0} where
  -- tailer.LoadCursor
  unfoldable pub load_cursor : BlockStore F → BlockStore F × Option (ℕ × Int64)
  load_cursor db =
      let (db', v) = get_kv cursor_key db in
      (db', elim v [ none ↦ none | some text ↦ parse_cursor text ])

  -- tailer.SaveCursor
  unfoldable pub save_cursor : ℕ → Int64 → BlockStore F → BlockStore F
  save_cursor ino off db = (set_kv cursor_key (print_cursor ino off) db).0

not_colon : (d : ℕ) → d < 10 → (code (digit_char d) == b':') ≡ false
not_colon d h = ground (arith, code-digit_char d h)

-- a text in front of the first part
abbrev put_before : String → Option (String × String) → Option (String × String)
put_before s none = none
put_before s (some (l, r)) = some (join s l, r)

-- The text s stands whole before a colon.
abbrev IsBefore : String → Type 0
IsBefore s = (t : String) → split_colon (join s (String.◌∷◌ ":" t)) ≡ some (s, t)

IsBefore-digit : (d : ℕ) (s : String) → d < 10 → IsBefore s → IsBefore (String.◌∷◌ (digit_char d) s)
unfolding split_colon join
IsBefore-digit d s small h t =
    rw (not_colon d small, split_colon) (ap (put_before (String.◌∷◌ (digit_char d) "")) (h t))

-- no digit is a colon
IsBefore-put_digits : (k n : ℕ) (out : String) → IsBefore out → IsBefore (put_digits k n out)
unfolding put_digits
IsBefore-put_digits zero n out h = h
IsBefore-put_digits (suc k) n out h = elim (Bool-cases (ltb n 10)) [
  | inl e ↦ rw e (IsBefore-digit n out (ltb→lt n 10 e) h)
  | inr e ↦ rw e (IsBefore-put_digits k (n / 10) _ (IsBefore-digit (n % 10) out (omega arith) h))
]

IsBefore-nil : IsBefore ""
unfolding split_colon join
IsBefore-nil t = refl

filled : (s : String) (c : Char) (t : String) → str_eq (join s (String.◌∷◌ c t)) "" ≡ false
unfolding join is_empty
filled String.[] c t = is_empty→not_eq _ refl
filled (String.◌∷◌ d s) c t = is_empty→not_eq _ refl

parse_cursor-print_cursor :
    (ino : ℕ) (off : Int64)
    → ino < 2 ^ 64
    → off < 2 ^ 64
    → parse_cursor (print_cursor ino off) ≡ some (ino, off)
unfolding parse_cursor both
parse_cursor-print_cursor ino off small small' =
    let some_text : str_eq (print_cursor ino off) "" ≡ false =
      unfold print_cursor in filled (format_uint ino) ":" (format_int off) in
    let split : split_colon (print_cursor ino off) ≡ some (format_uint ino, format_int off) =
      unfold print_cursor format_uint in
      IsBefore-put_digits 20 ino "" IsBefore-nil (format_int off) in
    simp (some_text, split, parse_uint-format_uint ino small, parse_int-format_int off small')

set_kv-faultless :
    {F : Type 0} (key text : String) (db : BlockStore F)
    → IsFaultless db
    → set_kv key text db ≡ (record db { kv = upsert key text db.kv }, true)
unfolding set_kv
set_kv-faultless key text db h = exec-faultless (λ s. record s { kv = upsert key text s.kv }) db h

-- what LoadCursor makes of GetKV's answer
read_cursor : {F : Type 0} → BlockStore F × Option String → Option (ℕ × Int64)
read_cursor p = elim p.1 [ none ↦ none | some text ↦ parse_cursor text ]

-- The cursor that SaveCursor stores, where its statement succeeds, is the one that LoadCursor returns,
-- for every inode and every int64 offset, whatever the table held before.
pub load_cursor-save_cursor :
    {F : Type 0} (ino : ℕ) (off : Int64) (db : BlockStore F)
    → ino < 2 ^ 64
    → off < 2 ^ 64
    → IsFaultless db
    → (load_cursor (save_cursor ino off db)).1 ≡ some (ino, off)
unfolding load_cursor save_cursor read_cursor
load_cursor-save_cursor ino off db small small' faultless =
    let text = print_cursor ino off in
    let db' = record db { kv = upsert cursor_key text db.kv } in
    let found : lookup cursor_key db'.kv ≡ text =
      lookup-upsert cursor_key cursor_key text db.kv ∙ refl in
    ap (λ p. read_cursor p)
      (ap (λ (p : BlockStore _ × Bool). get_kv cursor_key p.0)
          (set_kv-faultless cursor_key text db faultless)
        ∙ get_kv-faultless cursor_key db' faultless)
    ∙ ap parse_cursor found
    ∙ parse_cursor-print_cursor ino off small small'
