-- ===== src/State/Restore/Rebuilt.antt =====
-- RebuildShareStatsFromLog, and the start after it.
use mathlib.Core.Path.{subst}
use kamado_pool.Base.{
  ◌≡◌, refl, sym, ap, ◌∙◌, true, false, [], Option, some, List, String, str_eq, arith,
}
use kamado_pool.Base.Word.{le64}
use kamado_pool.Base.Time.{Time}
use kamado_pool.Base.Float.{Float64, IsOrdered}
use kamado_pool.Base.Dict
use kamado_pool.Store.Table.{BlockStore}
use kamado_pool.State.Types.{Aggregator, empty_dist}
use kamado_pool.State.Codec.{Codec}
use kamado_pool.State.Shares.{
  save_kv, persist_share_stats, ShareStats, rebuilt, rebuild_share_stats,
}
use kamado_pool.State.Shares.Totals.{total}
use kamado_pool.State.Shares.Histogram.{IsAscending, IsHistogram, bucket_all-IsHistogram}
use kamado_pool.State.Shares.Rebuild.{IsScan, total-bucket_all, adopted, rebuild-adopted}
use kamado_pool.Logmon.{LineCodec}
use kamado_pool.State.Restore.{load_persisted_state}
use kamado_pool.State.Restore.Reload.{IsFaithful, IsLoaded, dist_of, load_persisted_state-persist}

module _ {F : Type 0} ⦃fl : Float64 F⦄ where
  -- An aggregator's all-time statistics are those of a scan: each bucket has the difficulties of its
  -- range, the buckets add up to the counter, and the counter, the sum and each reason's count are the
  -- scan's.
  pub record IsOfLog (st : ShareStats F) (b : Aggregator F) : Type 0 where
    pub buckets : IsHistogram st.diffs b.alltime_diff_dist
    pub tallied : total b.alltime_diff_dist ≡ b.alltime_diff_count
    pub count : b.alltime_diff_count ≡ st.accepted
    pub sum : b.alltime_diff_sum ≡ st.diff_sum
    pub reasons : (k : String) → Dict.get k b.alltime_reject_reasons ≡ Dict.get k st.reject_reasons
    pub loaded : b.stats_loaded ≡ true

  module _ (codec : Codec F) (order : IsOrdered fl) (limits : IsAscending fl)
      (scan : String → Option (ShareStats F)) (a : Aggregator F) (st : ShareStats F) where
    adopted-IsOfLog : IsScan st → IsOfLog st (adopted codec scan a st)
    adopted-IsOfLog scanned = record {
      buckets = bucket_all-IsHistogram order limits st.diffs;
      tallied = let all = total-bucket_all st.diffs empty_dist in ground (arith, all, scanned);
      count = refl;
      sum = refl;
      reasons = λ k. refl;
      loaded = refl;
    }

    IsLoaded-IsOfLog :
        (b : Aggregator F) → IsScan st → IsLoaded codec (adopted codec scan a st) b → IsOfLog st b
    IsLoaded-IsOfLog b scanned h =
        let log = adopted-IsOfLog scanned in
        record {
          buckets = subst (IsHistogram st.diffs) (sym h.buckets) log.buckets;
          tallied = ap total h.buckets ∙ log.tallied ∙ sym h.count;
          count = h.count;
          sum = h.sum;
          reasons = h.reasons;
          loaded = h.loaded;
        }

    persisted-IsLoaded :
        IsLoaded codec
          (adopted codec scan a st)
          (persist_share_stats codec (adopted codec scan a st))
        × ((persist_share_stats codec (adopted codec scan a st)).session_diff_dist
            ≡ a.session_diff_dist)
    unfolding persist_share_stats save_kv
    persisted-IsLoaded = ground arith

    -- A rebuild that finds more in the log than is counted leaves the log's statistics behind, for
    -- a later start too. Let the log path be set, no other rebuild be running, the scan of the log
    -- succeed with one difficulty for each accepted share, and these be more than the counter has
    -- (as int64 values). Let further the database have no faults and both texts be encoded. The
    -- rebuild then returns that it adopted them and their number, and it leaves the session's
    -- histogram. The statistics are those of the log in the aggregator, and also in one that starts
    -- with the database as the rebuild left it, after its loadPersistedState: each bucket of the
    -- histogram counts the difficulties of its range, the buckets add up to the counter, the
    -- counter, the sum and each reason's count are the log's, and the statistics are marked as
    -- loaded. Floats are ordered as in IEEE 754, and a text that encoding/json made is read back as
    -- what it was made of, with a map's entries in any order.
    pub rebuild-reload :
        str_eq a.log_file_path "" ≡ false
        → a.rebuilding ≡ false
        → scan a.log_file_path ≡ some st
        → IsScan st
        → le64 st.accepted a.alltime_diff_count ≡ false
        → IsFaithful codec
        → (db : BlockStore F) (reasons dist : String) → a.store ≡ some db
        → db.faults ≡ []
        → codec.marshal_reasons st.reject_reasons ≡ some reasons
        → codec.marshal_dist (dist_of codec (rebuild_share_stats codec scan a).0) ≡ some dist
        → (lines : LineCodec F) (read : String → Option (List String)) (now : Time)
          (b : Aggregator F)
        → b.store ≡ (rebuild_share_stats codec scan a).0.store
        → let a' = (rebuild_share_stats codec scan a).0 in
          ((rebuild_share_stats codec scan a).1 ≡ rebuilt true st.accepted)
          × (a'.session_diff_dist ≡ a.session_diff_dist)
          × IsOfLog st a'
          × IsOfLog st (load_persisted_state codec lines read now b)
    rebuild-reload path idle found scanned more law db reasons dist there ok r d lines read now b
          next =
        let whole = rebuild-adopted codec scan a st path idle found more in
        let mine = adopted codec scan a st in
        let (kept, session) = persisted-IsLoaded in
        let d' : codec.marshal_dist (dist_of codec mine) ≡ some dist =
          ap codec.marshal_dist (λ i. record {
            buckets = sym kept.buckets i;
            count = sym kept.count i;
            sum = sym kept.sum i;
          })
          ∙ ap (λ r. codec.marshal_dist (dist_of codec r.0)) (sym whole)
          ∙ d in
        let later =
          load_persisted_state-persist codec mine law lines read now b db reasons dist there ok refl
            r d' (next ∙ ap (λ r. r.0.store) whole) in
        (
          ap (λ r. r.1) whole,
          ap (λ r. r.0.session_diff_dist) whole ∙ session,
          subst (λ r. IsOfLog st r.0) (sym whole) (IsLoaded-IsOfLog _ scanned kept),
          IsLoaded-IsOfLog _ scanned later,
        )
