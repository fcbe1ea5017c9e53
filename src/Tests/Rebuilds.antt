-- ===== src/Tests/Rebuilds.antt =====
-- The rebuild of the share statistics at a concrete log.
use kamado_pool.Base.{ℕ, ◌≡◌, refl, true, [], ◌∷◌, none, some}
use kamado_pool.Base.Word.{add64, le64}
use kamado_pool.State.Types.{Aggregator, empty_dist}
use kamado_pool.State.Shares.{
  diff_bucket, count_bucket, save_kv, bucket_all, ShareStats, rebuilt, rebuild_share_stats,
  persist_share_stats,
}
use kamado_pool.State.Shares.Histogram.{IsAscending}
use kamado_pool.State.Restore.{load_persisted_state}
use kamado_pool.State.Restore.Rebuilt.{IsOfLog, rebuild-reload}
use kamado_pool.Tests.Data.{whole, whole-IsOrdered, db, start}
use kamado_pool.Tests.Logs.{small_codec, small_codec-IsFaithful, line_codec}

whole-IsAscending : IsAscending whole
whole-IsAscending = record {
  million = refl;
  hundred_million = refl;
  billion = refl;
  hundred_billion = refl;
}

-- the statistics of a log with one accepted and one rejected share
abbrev of_log : ShareStats ℕ
of_log = record { accepted = 1; diff_sum = 5; diffs = 5 ∷ []; reject_reasons = ("Stale", 1) ∷ [] }

abbrev rebuild : Aggregator ℕ
rebuild = (rebuild_share_stats small_codec (λ path. some of_log) start).0

rebuild-reload_example :
    ((rebuild_share_stats small_codec (λ path. some of_log) start).1 ≡ rebuilt true 1)
    × (rebuild.session_diff_dist ≡ empty_dist)
    × IsOfLog of_log rebuild
    × IsOfLog of_log (
        load_persisted_state small_codec line_codec
          (λ path. none)
          9
          (record start { store = rebuild.store }))
unfolding rebuild_share_stats persist_share_stats save_kv bucket_all count_bucket diff_bucket le64
    add64
rebuild-reload_example =
    rebuild-reload small_codec whole-IsOrdered whole-IsAscending (λ path. some of_log) start of_log
      refl refl refl refl refl small_codec-IsFaithful db "r" "d" refl refl refl refl line_codec
      (λ path. none) 9 (record start { store = rebuild.store }) refl
