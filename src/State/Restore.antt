-- ===== src/State/Restore.antt =====
-- api/internal/state/aggregator.go: loadPersistedState, and the acknowledged best difficulty.
use kamado_pool.Base.{
  ℕ, ◌+◌, ◌-◌, ◌*◌, Bool, true, false, List, [], ◌∷◌, Option, none, some, String, str_eq, map,
  if◌then◌else◌,
}
use kamado_pool.Base.Word.{Int64}
use kamado_pool.Base.Time.{Time, second, unix, of_unix, is_zero}
use kamado_pool.Base.Float.{Float64}
use kamado_pool.Store.Blocks.{get_kv}
use kamado_pool.Store.Samples.{hashrate_since}
use kamado_pool.Store.Table
use kamado_pool.State.Types.{Aggregator, HashratePoint, PowData, BestSharePow}
use kamado_pool.State.Codec.{Codec, DistPersist}
use kamado_pool.State.Shares.{save_kv, save_text}
use kamado_pool.State.Blocks.{load_persisted_blocks}
use kamado_pool.Logmon.{LineCodec}
use kamado_pool.Logmon.Scan.{PowScan, find_best_share_hash, find_best_pow_data}
pub mod Guard
pub mod Saved
pub mod Reload
pub mod Rebuilt

module _ {F : Type 0} where
  -- if v, err := a.Store.GetKV(key); err == nil && v != "" { parse it, and set the field }
  unfoldable pub restore_kv :
      {A : Type 0}
      → String
      → (String → Option A)
      → (A → Aggregator F → Aggregator F)
      → Aggregator F
      → Aggregator F
  restore_kv key parse set a = elim a.store [
    | none ↦ a
    | some s ↦
        let (s', value) = get_kv key s in
        let a' : Aggregator F = record a { store = some s' } in
        elim value [
          | none ↦ a'
          | some text ↦
              if str_eq text "" then a' else elim (parse text) [ none ↦ a' | some x ↦ set x a' ]
        ]
  ]

  abbrev to_point : Table.HashratePoint F → HashratePoint F
  to_point p = record { t = p.t; v = p.v }

  -- the time of the last sample
  abbrev last_time : List (Table.HashratePoint F) → Time
  last_time [] = 0
  last_time (p ∷ []) = of_unix p.t
  last_time (p ∷ q ∷ ps) = last_time (q ∷ ps)

  -- the samples that HashrateSince returns
  unfoldable pub keep_samples : List (Table.HashratePoint F) → Aggregator F → Aggregator F
  keep_samples [] a = a
  keep_samples (p ∷ ps) a = record a {
    hr_history = map to_point (p ∷ ps);
    last_hr_sample_at = last_time (p ∷ ps);
  }

  unfoldable pub load_hashrate : Time → Aggregator F → Aggregator F
  load_hashrate now a = elim a.store [
    | none ↦ a
    | some s ↦
        let (s', found) = hashrate_since (unix (now - 24 * 3600 * second)) s in
        let a' : Aggregator F = record a { store = some s' } in
        elim found [ none ↦ a' | some samples ↦ keep_samples samples a' ]
  ]

module _ {F : Type 0} ⦃fl : Float64 F⦄ (codec : Codec F) where
  -- cumulative work, the submission counters and the all-time share counts
  unfoldable pub load_counters : Aggregator F → Aggregator F
  load_counters a =
      restore_kv "alltime_rejected" codec.parse_int (λ n b. record b { alltime_rejected = n })
        (restore_kv "alltime_accepted" codec.parse_int (λ n b. record b { alltime_accepted = n })
          (restore_kv "block_submits_confirmed" codec.parse_int
            (λ n b. record b { block_submits_confirmed = n })
            (restore_kv "block_submit_attempts" codec.parse_int
              (λ n b. record b { block_submit_attempts = n })
              (restore_kv "cumulative_work" codec.parse_float
                (λ x b. record b { cumulative_shares = x }) a))))

  -- json.Unmarshal of best_share_pow, where there is a header
  abbrev pub parse_pow : String → Option (BestSharePow F)
  parse_pow text = elim (codec.unmarshal_pow text) [
    | none ↦ none
    | some best ↦ if str_eq best.pow.header "" then none else some best
  ]

  -- the best difficulty with its hash, network difficulty and PoW record
  unfoldable pub load_best : Aggregator F → Aggregator F
  load_best a =
      restore_kv "best_share_pow" parse_pow (λ p b. record b { best_pow = some p })
        (restore_kv "best_share_net_diff" codec.parse_float
          (λ x b. record b { best_share_net_diff = x })
          (restore_kv "best_share_hash" (λ t. some t) (λ t b. record b { best_share_hash = t })
            (restore_kv "best_diff" codec.parse_float (λ x b. record b { best_diff = x }) a)))

  -- the first backfill: a higher difficulty found in the log
  unfoldable pub adopt_diff : F → Aggregator F → Aggregator F
  adopt_diff diff a =
      if fl.lt a.best_diff diff
      then save_kv "best_diff" (codec.format_float diff) (record a { best_diff = diff })
      else a

  -- the first backfill: the share that the scan found
  unfoldable pub adopt_hash : F × String → Aggregator F → Aggregator F
  adopt_hash (diff, hash) a =
      if str_eq hash ""
      then a
      else save_kv "best_share_hash" hash (adopt_diff diff (record a { best_share_hash = hash }))

  -- the second backfill: the record that the scan found
  unfoldable pub adopt_pow : Time → PowScan F → Aggregator F → Aggregator F
  adopt_pow now found a = elim found.best [
    | none ↦ a
    | some pow ↦
        let best : BestSharePow F = record {
          pow = pow;
          seen_at = if is_zero found.best_at then now else found.best_at;
        } in
        save_text codec "best_share_pow" (codec.marshal_pow best)
          (record a { best_pow = some best })
  ]

  module _ (lines : LineCodec F) (read : String → Option (List String)) where
    -- the first backfill, where no hash is known and a log path is set
    unfoldable pub backfill_hash : Aggregator F → Aggregator F
    backfill_hash a =
        if str_eq a.log_file_path ""
        then a
        else if str_eq a.best_share_hash ""
        then adopt_hash (find_best_share_hash lines (read a.log_file_path)) a
        else a

    -- the second backfill, where no PoW record is known and a log path is set
    unfoldable pub backfill_pow : Time → Aggregator F → Aggregator F
    backfill_pow now a = elim a.best_pow [
      | some p ↦ a
      | none ↦ if str_eq a.log_file_path "" then a else elim (read a.log_file_path) [
        | none ↦ a
        | some text ↦ adopt_pow now (find_best_pow_data lines text) a
      ]
    ]

  unfoldable pub load_latency : Aggregator F → Aggregator F
  load_latency a =
      restore_kv "stale_work_hashes" codec.parse_float (λ x b. record b { stale_work_hashes = x })
        (restore_kv "latency_last_ms" codec.parse_int (λ n b. record b { latency_last_ms = n })
          (restore_kv "latency_sum_ms" codec.parse_int (λ n b. record b { latency_sum_ms = n })
            (restore_kv "latency_count" codec.parse_int (λ n b. record b { latency_count = n }) a)))

  unfoldable pub load_share_stats : Aggregator F → Aggregator F
  load_share_stats a =
      let set : DistPersist F → Aggregator F → Aggregator F = λ p b. record b {
        alltime_diff_dist = p.buckets;
        alltime_diff_count = p.count;
        alltime_diff_sum = p.sum;
      } in
      let loaded = restore_kv "diff_dist_alltime" codec.unmarshal_dist set (
        restore_kv "reject_reasons_alltime" codec.unmarshal_reasons
          (λ m b. record b { alltime_reject_reasons = m }) a) in
      record loaded { stats_loaded = true }

  -- loadPersistedState at the time `now`; `read` gives the lines of a log, `none` if it cannot be read
  unfoldable pub load_persisted_state :
      LineCodec F → (String → Option (List String)) → Time → Aggregator F → Aggregator F
  load_persisted_state lines read now a = elim a.store [
    | none ↦ a
    | some _ ↦
        let best =
          backfill_pow lines read now (backfill_hash lines read (load_best (load_counters a))) in
        let acked =
          restore_kv "acked_best_diff" codec.parse_float (λ x b. record b { acked_best_diff = x })
            best in
        load_hashrate now (load_share_stats (load_latency acked))
  ]

  -- LoadPersisted, the first call
  unfoldable pub load_persisted :
      LineCodec F → (String → Option (List String)) → Time → Aggregator F → Aggregator F
  load_persisted lines read now a = load_persisted_state lines read now (load_persisted_blocks a)

  unfoldable pub ack_best_diff : Aggregator F → Aggregator F
  ack_best_diff a =
      save_kv "acked_best_diff" (codec.format_float a.snap.best_diff)
        (record a { acked_best_diff = a.snap.best_diff })

  unfoldable pub reset_acked_best_diff : Aggregator F → Aggregator F
  reset_acked_best_diff a = save_kv "acked_best_diff" "0" (record a { acked_best_diff = fl.nought })
