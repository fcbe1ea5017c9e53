-- ===== src/State/Shares/Rebuild.antt =====
-- Rebuilding the all-time statistics from the log: what is adopted, and when nothing changes.
use kamado_pool.Base.{
  ◌+◌, ◌%◌, ◌^◌, ◌≡◌, true, false, List, [], ◌∷◌, Option, some, String, str_eq, arith, length,
}
use kamado_pool.Base.Word.{add64, le64}
use kamado_pool.Base.Float.{Float64}
use kamado_pool.State.Types.{Aggregator, DiffDist, empty_dist}
use kamado_pool.State.Codec.{Codec}
use kamado_pool.State.Shares.{
  diff_bucket, count_bucket, persist_share_stats, ShareStats, RebuildError, rebuilt, refused,
  bucket_all, rebuild_share_stats,
}
use kamado_pool.State.Shares.Totals.{total, total-count_bucket}

-- What a scan of a log returns: one difficulty for each accepted share.
abbrev pub IsScan : {F : Type 0} → ShareStats F → Type 0
IsScan st = st.accepted ≡ length st.diffs % 2 ^ 64

module _ {F : Type 0} ⦃fl : Float64 F⦄ where
  pub total-bucket_all :
      (ds : List F) (d : DiffDist) → total (bucket_all ds d) ≡ (total d + length ds) % 2 ^ 64
  unfolding bucket_all add64
  total-bucket_all [] d = omega arith
  total-bucket_all (x ∷ ds) d =
      let d' = count_bucket (diff_bucket x) d in
      let step = total-count_bucket (diff_bucket x) d in omega (arith, total-bucket_all ds d', step)

  module _ (codec : Codec F) (scan : String → Option (ShareStats F)) (a : Aggregator F) where
    -- The counts of a scan, in place of the aggregator's.
    abbrev pub adopted : ShareStats F → Aggregator F
    adopted st = record a {
      alltime_diff_dist = bucket_all st.diffs empty_dist;
      alltime_diff_count = st.accepted;
      alltime_diff_sum = st.diff_sum;
      alltime_reject_reasons = st.reject_reasons;
      stats_loaded = true;
    }

    pub rebuild-adopted :
        (st : ShareStats F)
        → str_eq a.log_file_path "" ≡ false
        → a.rebuilding ≡ false
        → scan a.log_file_path ≡ some st
        → le64 st.accepted a.alltime_diff_count ≡ false
        → rebuild_share_stats codec scan a
          ≡ (persist_share_stats codec (adopted st), rebuilt true st.accepted)
    unfolding rebuild_share_stats
    rebuild-adopted st path idle found more = ground arith

    -- Without a log path, while another rebuild runs, and when the scan fails, the rebuild reports an
    -- error and changes nothing.
    pub rebuild_refused :
        {e : RebuildError}
        → (rebuild_share_stats codec scan a).1 ≡ refused e
        → (rebuild_share_stats codec scan a).0 ≡ a
    unfolding rebuild_share_stats
    rebuild_refused h = ground arith
