-- ===== src/State/Shares.antt =====
-- api/internal/state/aggregator.go: the share statistics, as counted from the log.
use kamado_pool.Base.{
  ℕ, ◌*◌, Bool, true, false, not, ◌&&◌, ◌||◌, List, [], ◌∷◌, Option, none, some, String, str_eq,
  ◌==◌, ltb, leb, if◌then◌else◌, length,
}
use kamado_pool.Base.Word.{Int64, add64, lt64, le64}
use kamado_pool.Base.Time.{Time, second, elapsed}
use kamado_pool.Base.Float.{Float64}
use kamado_pool.Base.Dict
use kamado_pool.Store.Blocks.{set_kv}
use kamado_pool.State.Types.{
  Aggregator, ShareEvent, PowData, BestSharePow, BlockchainInfo, DiffDist, empty_dist,
}
use kamado_pool.State.Codec.{Codec, DistPersist}
pub mod Totals
pub mod Pending
pub mod Best
pub mod Histogram
pub mod Rebuild

module _ {F : Type 0} ⦃fl : Float64 F⦄ where
  -- The index of the histogram: 1e6, 1e8, 1e9, 1e11 and 1e12 are the limits.
  unfoldable pub diff_bucket : F → ℕ
  diff_bucket d =
      if fl.lt d (fl.sci 1 6)
      then 0
      else if fl.lt d (fl.sci 1 8)
      then 1
      else if fl.lt d (fl.sci 1 9)
      then 2
      else if fl.lt d (fl.sci 1 11)
      then 3
      else if fl.lt d (fl.sci 1 12)
      then 4
      else 5

-- dist[bucket]++
unfoldable pub count_bucket : ℕ → DiffDist → DiffDist
count_bucket i d =
    if i == 0
    then record d { b0 = add64 d.b0 1 }
    else if i == 1
    then record d { b1 = add64 d.b1 1 }
    else if i == 2
    then record d { b2 = add64 d.b2 1 }
    else if i == 3
    then record d { b3 = add64 d.b3 1 }
    else if i == 4
    then record d { b4 = add64 d.b4 1 }
    else record d { b5 = add64 d.b5 1 }

module _ {F : Type 0} where
  -- if a.Store != nil { _ = a.Store.SetKV(key, value) }
  unfoldable pub save_kv : String → String → Aggregator F → Aggregator F
  save_kv key value a = record a {
    store = elim a.store [ none ↦ none | some s ↦ some (set_kv key value s).0 ];
  }

module _ {F : Type 0} ⦃fl : Float64 F⦄ where
  unfoldable pub reset_session_share_stats : Aggregator F → Aggregator F
  reset_session_share_stats a = record a {
    session_reject_reasons = [];
    session_diff_dist = empty_dist;
    session_diff_count = 0;
    session_diff_sum = fl.nought;
  }

  -- a PoW line: parked until its share is accepted, in a map that is emptied at 16 entries
  unfoldable pub park_pow : PowData F → Aggregator F → Aggregator F
  park_pow pow a =
      let room : List (String × PowData F) =
        if leb 16 (length a.pending_pow) then [] else a.pending_pow in
      record a { pending_pow = Dict.put pow.hash pow room }

  unfoldable pub count_rejected : String → Aggregator F → Aggregator F
  count_rejected text a =
      let reason = if str_eq text "" then "Unknown" else text in
      record a {
        session_reject_reasons = Dict.increment reason a.session_reject_reasons;
        alltime_reject_reasons = Dict.increment reason a.alltime_reject_reasons;
      }

  unfoldable pub count_accepted : F → Aggregator F → Aggregator F
  count_accepted diff a =
      let bucket = diff_bucket diff in
      record a {
        session_diff_dist = count_bucket bucket a.session_diff_dist;
        alltime_diff_dist = count_bucket bucket a.alltime_diff_dist;
        session_diff_count = add64 a.session_diff_count 1;
        alltime_diff_count = add64 a.alltime_diff_count 1;
        session_diff_sum = fl.add a.session_diff_sum diff;
        alltime_diff_sum = fl.add a.alltime_diff_sum diff;
      }

  -- a.bestPow == nil || pow.SDiff > a.bestPow.SDiff
  abbrev pub beats_pow : PowData F → Option (BestSharePow F) → Bool
  beats_pow pow none = true
  beats_pow pow (some best) = fl.lt best.pow.sdiff pow.sdiff

  -- the network difficulty of the snapshot, where there is one above 0
  abbrev pub net_diff_of : Option (BlockchainInfo F) → F → F
  net_diff_of none old = old
  net_diff_of (some c) old = if fl.lt fl.nought c.difficulty then c.difficulty else old

module _ {F : Type 0} ⦃fl : Float64 F⦄ (codec : Codec F) where
  -- writes a marshalled value, if there was no error
  abbrev pub save_text : String → Option String → Aggregator F → Aggregator F
  save_text key text a = elim text [ none ↦ a | some t ↦ save_kv key t a ]

  unfoldable pub persist_share_stats : Aggregator F → Aggregator F
  persist_share_stats a = elim a.store [
    | none ↦ a
    | some _ ↦
        if a.stats_loaded
        then (let dist : DistPersist F = record {
          buckets = a.alltime_diff_dist;
          count = a.alltime_diff_count;
          sum = a.alltime_diff_sum;
        } in
            save_text "diff_dist_alltime" (codec.marshal_dist dist) (
              save_text "reject_reasons_alltime" (codec.marshal_reasons a.alltime_reject_reasons)
                a))
        else a
  ]

  -- an accepted share confirms the parked record of its hash, which may be the best one
  unfoldable pub promote_pow : Time → String → Aggregator F → Aggregator F
  promote_pow now hash a = elim (Dict.get hash a.pending_pow) [
    | none ↦ a
    | some pow ↦
        let a1 : Aggregator F = record a { pending_pow = Dict.delete hash a.pending_pow } in
        let best : BestSharePow F = record { pow = pow; seen_at = now } in
        if beats_pow pow a.best_pow
        then save_text "best_share_pow" (codec.marshal_pow best)
            (record a1 { best_pow = some best })
        else a1
  ]

  -- a new best difficulty, with its hash
  unfoldable pub track_best : F → String → Aggregator F → Aggregator F
  track_best diff hash a =
      if not (str_eq hash "") && fl.lt a.best_diff diff
      then (let net = net_diff_of a.snap.chain a.best_share_net_diff in
          let a1 : Aggregator F = record a {
            best_diff = diff;
            best_share_hash = hash;
            best_share_net_diff = net;
          } in
          let a2 =
            save_kv "best_share_hash" hash (save_kv "best_diff" (codec.format_float diff) a1) in
          if fl.lt fl.nought net
          then save_kv "best_share_net_diff" (codec.format_float net) a2
          else a2)
      else a

  -- at most once a minute
  unfoldable pub save_share_stats : Time → Aggregator F → Aggregator F
  save_share_stats now a = elim a.store [
    | none ↦ a
    | some _ ↦
        if elapsed now a.last_share_stats_save (60 * second)
        then persist_share_stats (record a { last_share_stats_save = now })
        else a
  ]

  -- IngestShareEvents, one event, read at the time `now`
  unfoldable pub ingest_share : Time → ShareEvent F → Aggregator F → Aggregator F
  ingest_share now ev a = elim ev.pow [
    | some pow ↦ park_pow pow a
    | none ↦ save_share_stats now (
        if ev.rejected
        then count_rejected ev.reason a
        else track_best ev.diff ev.hash (promote_pow now ev.hash (count_accepted ev.diff a)))
  ]

  -- the events of the channel, in order
  unfoldable pub ingest_shares : List (Time × ShareEvent F) → Aggregator F → Aggregator F
  ingest_shares [] a = a
  ingest_shares ((now, ev) ∷ evs) a = ingest_shares evs (ingest_share now ev a)

-- logmon.ShareStats
pub record ShareStats (F : Type 0) : Type 0 where
  pub accepted : Int64
  pub diff_sum : F
  pub diffs : List F
  pub reject_reasons : List (String × Int64)

-- the errors of RebuildShareStatsFromLog
pub data RebuildError : Type 0 where
  no_log_path : RebuildError
  already_running : RebuildError
  scan_failed : RebuildError

pub data RebuildResult : Type 0 where
  rebuilt : Bool → Int64 → RebuildResult
  refused : RebuildError → RebuildResult

module _ {F : Type 0} ⦃fl : Float64 F⦄ where
  unfoldable pub bucket_all : List F → DiffDist → DiffDist
  bucket_all [] dist = dist
  bucket_all (d ∷ ds) dist = bucket_all ds (count_bucket (diff_bucket d) dist)

  -- `scan` is what logmon.ScanShareStats returns for the path; `none` is its error
  unfoldable pub rebuild_share_stats :
      Codec F → (String → Option (ShareStats F)) → Aggregator F → Aggregator F × RebuildResult
  rebuild_share_stats codec scan a =
      if str_eq a.log_file_path ""
      then (a, refused no_log_path)
      else if a.rebuilding
      then (a, refused already_running)
      else elim (scan a.log_file_path) [
        | none ↦ (a, refused scan_failed)
        | some st ↦
            if le64 st.accepted a.alltime_diff_count then (a, rebuilt false st.accepted) else (
              persist_share_stats codec (record a {
                alltime_diff_dist = bucket_all st.diffs empty_dist;
                alltime_diff_count = st.accepted;
                alltime_diff_sum = st.diff_sum;
                alltime_reject_reasons = st.reject_reasons;
                stats_loaded = true;
              }),
              rebuilt true st.accepted,
            )
      ]
