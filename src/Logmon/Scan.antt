-- ===== src/Logmon/Scan.antt =====
-- api/internal/logmon/tailer.go: the scans of a whole log, over the lines that scanLines passes on.
use Prim.Native.Char.{code}
use kamado_pool.Base.{
  Bool, true, List, [], ◌∷◌, ◌++◌, Option, none, some, String, str_eq, leb, ◌==◌, if◌then◌else◌,
  length,
}
use kamado_pool.Base.Word.{Int64, add64}
use kamado_pool.Base.Time.{Time}
use kamado_pool.Base.Float.{Float64}
use kamado_pool.Base.Dict
use kamado_pool.Base.Text.{contains, trim}
use kamado_pool.Base.Regexp.{find, digit}
use kamado_pool.State.Types.{PowData}
use kamado_pool.State.Shares.{ShareStats}
use kamado_pool.Logmon.{
  LineCodec, accepted_share_re, rejected_diff_re, rejected_inval_re, pow_data_marker, first_group,
  two_groups, no_marker, unparseable, parsed, parse_pow_line, reject_keyword,
}

-- a text of digits, where the shape has a d, and of the shape's other characters
unfoldable pub take_shape : String → String → Option String
take_shape String.[] s = some ""
take_shape (String.◌∷◌ p ps) String.[] = none
take_shape (String.◌∷◌ p ps) (String.◌∷◌ c s) =
    if (if code p == b'd' then digit (code c) else code p == code c)
    then elim (take_shape ps s) [ none ↦ none | some text ↦ some (String.◌∷◌ c text) ]
    else none

-- logStampRE
unfoldable pub log_stamp : String → Option String
log_stamp String.[] = none
log_stamp (String.◌∷◌ c s) = if code c == b'[' then take_shape "dddd-dd-dd dd:dd:dd" s else none

-- what FindBestPowData returns, with the records that wait for their share
pub record PowScan (F : Type 0) : Type 0 where
  pub best : Option (PowData F)
  pub best_at : Time
  pub seen : Int64
  pub unparseable_count : Int64
  pub pending : List (String × (PowData F × Time))

module _ {F : Type 0} ⦃fl : Float64 F⦄ (codec : LineCodec F) where
  -- the difficulty and the hash of a line "Accepted client"
  unfoldable pub accepted_share : String → Option (F × String)
  accepted_share line = elim (two_groups (find accepted_share_re line)) [
    | none ↦ none
    | some (diff, hash) ↦ elim (codec.parse_float diff) [ none ↦ none | some d ↦ some (d, hash) ]
  ]

  -- FindBestShareHash: the line's effect on bestDiff and bestHash
  unfoldable pub best_share_line : String → F × String → F × String
  best_share_line line (best_diff, best_hash) =
      if contains line "Accepted client"
      then elim (accepted_share line) [
        | none ↦ (best_diff, best_hash)
        | some (d, hash) ↦ if fl.le best_diff d then (d, hash) else (best_diff, best_hash)
      ]
      else (best_diff, best_hash)

  unfoldable pub best_share_lines : List String → F × String → F × String
  best_share_lines [] best = best
  best_share_lines (line ∷ lines) best = best_share_lines lines (best_share_line line best)

  -- FindBestShareHash; `none` is a log that os.Open refuses
  unfoldable pub find_best_share_hash : Option (List String) → F × String
  find_best_share_hash none = (fl.nought, "")
  find_best_share_hash (some lines) = best_share_lines lines (fl.nought, "")

  -- the time of a log line, the zero time where it has none
  unfoldable pub stamp : String → Time
  stamp line = elim (log_stamp line) [ none ↦ 0 | some text ↦ codec.parse_stamp text ]

  -- FindBestPowData: a line with the marker
  unfoldable pub park_pow_line : String → PowScan F → PowScan F
  park_pow_line line st =
      let counted : PowScan F = record st { seen = add64 st.seen 1 } in
      let failed : PowScan F = record counted {
        unparseable_count = add64 st.unparseable_count 1;
      } in
      elim (parse_pow_line codec line) [
        | no_marker ↦ failed
        | unparseable ↦ failed
        | parsed pd ↦
            let room : List (String × (PowData F × Time)) =
              if leb 16 (length st.pending) then [] else st.pending in
            record counted { pending = Dict.put pd.hash (pd, stamp line) room }
      ]

  -- best == nil || pow.SDiff > best.SDiff
  abbrev pub beats : PowData F → Option (PowData F) → Bool
  beats pow none = true
  beats pow (some best) = fl.lt best.sdiff pow.sdiff

  -- FindBestPowData: an accepted share confirms the record of its hash
  unfoldable pub confirm_pow : String → PowScan F → PowScan F
  confirm_pow hash st = elim (Dict.get hash st.pending) [
    | none ↦ st
    | some (pow, time) ↦
        let left : PowScan F = record st { pending = Dict.delete hash st.pending } in
        if beats pow st.best then record left { best = some pow; best_at = time } else left
  ]

  unfoldable pub pow_line : String → PowScan F → PowScan F
  pow_line line st =
      if contains line pow_data_marker
      then park_pow_line line st
      else if contains line "Accepted client"
      then elim (two_groups (find accepted_share_re line)) [
        | none ↦ st
        | some (diff, hash) ↦ confirm_pow hash st
      ]
      else st

  unfoldable pub pow_lines : List String → PowScan F → PowScan F
  pow_lines [] st = st
  pow_lines (line ∷ lines) st = pow_lines lines (pow_line line st)

  -- FindBestPowData, of a log that could be opened
  unfoldable pub find_best_pow_data : List String → PowScan F
  find_best_pow_data lines =
      pow_lines lines
        (record { best = none; best_at = 0; seen = 0; unparseable_count = 0; pending = [] })

  -- ScanShareStats: a line "Rejected client"
  unfoldable pub count_reason : String → List (String × Int64) → List (String × Int64)
  count_reason line reasons = elim (first_group (find rejected_diff_re line)) [
    | some kw ↦ Dict.increment (reject_keyword kw) reasons
    | none ↦ elim (first_group (find rejected_inval_re line)) [
      | none ↦ reasons
      | some text ↦
          let reason = trim text in
          Dict.increment (if str_eq reason "" then "Unknown" else reason) reasons
    ]
  ]

  -- ScanShareStats: a line
  unfoldable pub stats_line : String → ShareStats F → ShareStats F
  stats_line line st =
      if contains line "Accepted client"
      then elim (accepted_share line) [
        | none ↦ st
        | some (d, hash) ↦ record {
          accepted = add64 st.accepted 1;
          diff_sum = fl.add st.diff_sum d;
          diffs = st.diffs ++ d ∷ [];
          reject_reasons = st.reject_reasons;
        }
      ]
      else if contains line "Rejected client"
      then record st { reject_reasons = count_reason line st.reject_reasons }
      else st

  unfoldable pub stats_lines : List String → ShareStats F → ShareStats F
  stats_lines [] st = st
  stats_lines (line ∷ lines) st = stats_lines lines (stats_line line st)

  -- ScanShareStats; `none` is a log that cannot be opened or read to its end
  unfoldable pub scan_share_stats : Option (List String) → Option (ShareStats F)
  scan_share_stats none = none
  scan_share_stats (some lines) = some (
      stats_lines lines
        (record { accepted = 0; diff_sum = fl.nought; diffs = []; reject_reasons = [] }))
