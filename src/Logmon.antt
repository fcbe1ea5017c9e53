-- ===== src/Logmon.antt =====
-- api/internal/logmon/tailer.go: what a line of ckpool's log makes the tailer do. JSON, the parsers
-- of numbers and of time stamps are those of a `LineCodec`.
use kamado_pool.Base.{
  ℕ, suc, ◌+◌, Bool, true, false, not, ◌||◌, List, [], ◌∷◌, ◌++◌, Option, none, some, String,
  str_eq, ltb, ◌==◌, if◌then◌else◌, length,
}
use kamado_pool.Base.Word.{Int64}
use kamado_pool.Base.Time.{Time}
use kamado_pool.Base.Float.{Float64}
use kamado_pool.Base.Text.{after, contains, from_byte, equal_fold, trim}
use kamado_pool.Base.Regexp.{
  Item, lit, star, plus, capture, digit, word, space, nonspace, dot, hex, find,
}
use kamado_pool.State.Types.{PowData, ShareEvent, BlockEvent}
pub mod Tail
pub mod Lines
pub mod Scan
pub mod Agreement
pub mod Watch
pub mod Follow

-- json.Decoder.Decode, strconv.ParseFloat, strconv.ParseInt and time.ParseInLocation
pub record LineCodec (F : Type 0) : Type 0 where
  pub decode_pow : String → Option (PowData F)
  pub parse_float : String → Option F
  pub parse_int : String → Option Int64
  pub parse_stamp : String → Time

abbrev number : ℕ → Bool
number c = digit c || c == b'.'

abbrev exponent : ℕ → Bool
exponent c = number c || c == b'e' || c == b'E' || c == b'+' || c == b'-'

abbrev pub accepted_share_re : List (List Item)
accepted_share_re =
    (lit "Accepted client"
      ∷ lit " "
      ∷ plus nonspace
      ∷ lit " share diff "
      ∷ capture number
      ∷ lit "/"
      ∷ plus (λ c. not (c == b':'))
      ∷ lit ":"
      ∷ star space
      ∷ capture hex
      ∷ [])
    ∷ []

abbrev pub rejected_diff_re : List (List Item)
rejected_diff_re =
    (lit "Rejected client"
      ∷ lit " "
      ∷ plus nonspace
      ∷ lit " "
      ∷ capture word
      ∷ lit " diff "
      ∷ plus number
      ∷ lit "/"
      ∷ [])
    ∷ []

abbrev pub rejected_inval_re : List (List Item)
rejected_inval_re =
    (lit "Rejected client" ∷ lit " " ∷ plus nonspace ∷ lit " invalid share " ∷ capture dot ∷ [])
    ∷ []

abbrev pub latency_re : List (List Item)
latency_re = (lit "Block update latency:" ∷ plus space ∷ capture digit ∷ lit "ms" ∷ []) ∷ []

abbrev solve_end : List Item
solve_end =
    star dot ∷ lit "block solve" ∷ star dot ∷ lit "diff" ∷ plus space ∷ capture exponent ∷ []

abbrev pub solve_diff_re : List (List Item)
solve_diff_re =
    (lit "Possible" ∷ solve_end)
    ∷ (lit "Submitting" ∷ star (λ c. not (c == b'"')) ∷ lit "possible" ∷ solve_end)
    ∷ []

abbrev pub solved_re : List (List Item)
solved_re = (lit "Solved and confirmed block" ∷ plus space ∷ capture digit ∷ []) ∷ []

abbrev pub pow_data_marker : String
pow_data_marker = "Best share PoW data "

-- the first captured text
abbrev pub first_group : Option (List String) → Option String
first_group none = none
first_group (some []) = none
first_group (some (t ∷ _)) = some t

-- the two captured texts of acceptedShareRE
abbrev pub two_groups : Option (List String) → Option (String × String)
two_groups (some (t ∷ u ∷ _)) = some (t, u)
two_groups _ = none

-- the results of parsePowLine
pub data PowLine (F : Type 0) : Type 0 where
  no_marker unparseable : PowLine F
  parsed : PowData F → PowLine F

unfoldable pub parse_pow_line : {F : Type 0} → LineCodec F → String → PowLine F
parse_pow_line codec line = elim (after pow_data_marker line) [
  | none ↦ no_marker
  | some rest ↦ elim (from_byte b'{' rest) [
    | none ↦ unparseable
    | some json ↦ elim (codec.decode_pow json) [
      | none ↦ unparseable
      | some pd ↦
          if str_eq pd.header ""
          then unparseable
          else if str_eq pd.hash ""
          then unparseable
          else parsed pd
    ]
  ]
]

unfoldable pub reject_keyword : String → String
reject_keyword kw =
    if equal_fold kw "dupe"
    then "Duplicate"
    else if equal_fold kw "high"
    then "Above target"
    else kw
