-- ===== src/State/Restore/Reload.antt =====
-- The share statistics, saved and loaded again.
use mathlib.Core.Path.{subst}
use kamado_pool.Base.{
  ◌-◌, ◌*◌, ◌≡◌, refl, sym, ap, ◌∙◌, true, false, List, [], ◌∷◌, Option, none, some, String, str_eq,
  arith,
}
use kamado_pool.Base.Word.{Int64}
use kamado_pool.Base.Time.{Time, second, unix}
use kamado_pool.Base.Float.{Float64}
use kamado_pool.Base.Dict
use kamado_pool.Store.Blocks.{upsert}
use kamado_pool.Store.Samples.{hashrate_since}
use kamado_pool.Store.Table.{BlockStore, HashratePoint}
use kamado_pool.State.Types.{Aggregator}
use kamado_pool.State.Codec.{Codec, DistPersist}
use kamado_pool.State.Shares.{save_kv, persist_share_stats}
use kamado_pool.Logmon.{LineCodec}
use kamado_pool.State.Restore.{
  restore_kv, load_counters, load_best, backfill_hash, backfill_pow, load_latency, load_share_stats,
  keep_samples, load_hashrate, load_persisted_state,
}
use kamado_pool.State.Restore.Guard.{lookup-upsert}
use kamado_pool.State.Restore.Saved.{
  IsSaved, IsSaved-moved, use_text, restore_kv-faultless, use_text-some, save_kv-faultless,
  IsSaved-restore, IsSaved-counters, IsSaved-best, IsSaved-latency, IsSaved-backfill_hash,
  IsSaved-backfill_pow,
}

-- What encoding/json says of a text that it made: reading it back gives the same map, whose entries may
-- be in another order, and the same record; and it is not empty.
pub record IsFaithful {F : Type 0} (codec : Codec F) : Type 0 where
  pub reasons_back :
      (m : List (String × Int64)) (t : String)
      → codec.marshal_reasons m ≡ some t
      → (m' : List (String × Int64)) × (codec.unmarshal_reasons t ≡ some m')
        × ((k : String) → Dict.get k m' ≡ Dict.get k m)
  pub dist_back :
      (p : DistPersist F) (t : String)
      → codec.marshal_dist p ≡ some t
      → codec.unmarshal_dist t ≡ some p
  pub reasons_filled :
      (m : List (String × Int64)) (t : String)
      → codec.marshal_reasons m ≡ some t
      → str_eq t "" ≡ false
  pub dist_filled :
      (p : DistPersist F) (t : String) → codec.marshal_dist p ≡ some t → str_eq t "" ≡ false

module _ {F : Type 0} ⦃fl : Float64 F⦄ (codec : Codec F) (a : Aggregator F) where
  -- what persist_share_stats writes
  abbrev pub dist_of : DistPersist F
  dist_of = record {
    buckets = a.alltime_diff_dist;
    count = a.alltime_diff_count;
    sum = a.alltime_diff_sum;
  }

  persist-IsSaved :
      (db : BlockStore F) (reasons dist : String)
      → a.store ≡ some db
      → db.faults ≡ []
      → a.stats_loaded ≡ true
      → codec.marshal_reasons a.alltime_reject_reasons ≡ some reasons
      → codec.marshal_dist dist_of ≡ some dist
      → IsSaved reasons dist (persist_share_stats codec a)
  persist-IsSaved db reasons dist there ok loaded r d =
      let kv = upsert "reject_reasons_alltime" reasons db.kv in
      let first = save_kv "reject_reasons_alltime" reasons a in
      let second : persist_share_stats codec a ≡ save_kv "diff_dist_alltime" dist first =
        unfold persist_share_stats in ground arith in
      subst (IsSaved reasons dist) (sym second) (record {
        db = record db { kv = upsert "diff_dist_alltime" dist kv };
        there =
            save_kv-faultless "diff_dist_alltime" dist first (record db { kv = kv })
              (save_kv-faultless "reject_reasons_alltime" reasons a db there ok) ok;
        faultless = ok;
        reasons_text =
            lookup-upsert "reject_reasons_alltime" "diff_dist_alltime" dist kv
            ∙ lookup-upsert "reject_reasons_alltime" "reject_reasons_alltime" reasons db.kv;
        dist_text = lookup-upsert "diff_dist_alltime" "diff_dist_alltime" dist kv;
      })

  -- the all-time statistics of another aggregator are these, up to the order of the reasons
  pub record IsLoaded (b : Aggregator F) : Type 0 where
    pub buckets : b.alltime_diff_dist ≡ a.alltime_diff_dist
    pub count : b.alltime_diff_count ≡ a.alltime_diff_count
    pub sum : b.alltime_diff_sum ≡ a.alltime_diff_sum
    pub reasons :
        (k : String) → Dict.get k b.alltime_reject_reasons ≡ Dict.get k a.alltime_reject_reasons
    pub loaded : b.stats_loaded ≡ true

  load_share_stats-IsLoaded :
      IsFaithful codec
      → (reasons dist : String) (b : Aggregator F)
      → codec.marshal_reasons a.alltime_reject_reasons ≡ some reasons
      → codec.marshal_dist dist_of ≡ some dist
      → IsSaved reasons dist b
      → IsLoaded (load_share_stats codec b)
  unfolding load_share_stats
  load_share_stats-IsLoaded law reasons dist b r d h =
      let (m, back, same) = law.reasons_back a.alltime_reject_reasons reasons r in
      let set : List (String × Int64) → Aggregator F → Aggregator F =
        λ m b. record b { alltime_reject_reasons = m } in
      let b1 = set m b in
      let first : restore_kv "reject_reasons_alltime" codec.unmarshal_reasons set b ≡ b1 =
        restore_kv-faultless "reject_reasons_alltime" codec.unmarshal_reasons set b h.db h.there
          h.faultless
        ∙ ap (λ t. use_text codec.unmarshal_reasons set t b) h.reasons_text
        ∙ use_text-some codec.unmarshal_reasons set reasons m b (law.reasons_filled _ _ r) back in
      let set' : DistPersist F → Aggregator F → Aggregator F = λ p b. record b {
        alltime_diff_dist = p.buckets;
        alltime_diff_count = p.count;
        alltime_diff_sum = p.sum;
      } in
      let second : restore_kv "diff_dist_alltime" codec.unmarshal_dist set' b1 ≡ set' dist_of b1 =
        restore_kv-faultless "diff_dist_alltime" codec.unmarshal_dist set' b1 h.db h.there
          h.faultless
        ∙ ap (λ t. use_text codec.unmarshal_dist set' t b1) h.dist_text
        ∙ use_text-some codec.unmarshal_dist set' dist dist_of b1 (law.dist_filled _ _ d)
            (law.dist_back _ _ d) in
      let all = ap (restore_kv "diff_dist_alltime" codec.unmarshal_dist set') first ∙ second in
      subst (λ c. IsLoaded (record c { stats_loaded = true })) (sym all)
        (record { buckets = refl; count = refl; sum = refl; reasons = same; loaded = refl })

  IsLoaded-option :
      {A : Type 0} (v : Option A) {x : Aggregator F} (f : A → Aggregator F)
      → IsLoaded x
      → ((u : A) → IsLoaded (f u))
      → IsLoaded (elim v [ none ↦ x | some u ↦ f u ])
  IsLoaded-option none f p q = p
  IsLoaded-option (some u) f p q = q u

  IsLoaded-moved :
      (b : Aggregator F) (o : Option (BlockStore F))
      → IsLoaded b
      → IsLoaded (record b { store = o })
  IsLoaded-moved b o h = record {
    buckets = h.buckets;
    count = h.count;
    sum = h.sum;
    reasons = h.reasons;
    loaded = h.loaded;
  }

  keep_samples-IsLoaded :
      (samples : List (HashratePoint F)) (b : Aggregator F)
      → IsLoaded b
      → IsLoaded (keep_samples samples b)
  unfolding keep_samples
  keep_samples-IsLoaded [] b h = h
  keep_samples-IsLoaded (p ∷ ps) b h = record {
    buckets = h.buckets;
    count = h.count;
    sum = h.sum;
    reasons = h.reasons;
    loaded = h.loaded;
  }

  load_hashrate-IsLoaded :
      (now : Time) (b : Aggregator F) → IsLoaded b → IsLoaded (load_hashrate now b)
  unfolding load_hashrate
  load_hashrate-IsLoaded now b h = IsLoaded-option b.store _ h (λ s.
      let (s', found) = hashrate_since (unix (now - 24 * 3600 * second)) s in
      IsLoaded-option found _ (IsLoaded-moved b (some s') h)
        (λ samples. keep_samples-IsLoaded samples _ (IsLoaded-moved b (some s') h)))

  -- Share statistics that were saved are restored. Let the statistics of `a` be loaded, its database
  -- without faults, and both of its texts encoded; let another aggregator start with the database
  -- that persist_share_stats leaves. After its loadPersistedState, whatever the log holds and whatever
  -- else is in the database, it has the all-time histogram, count and sum of `a`, the same count for
  -- each reason, and is marked as loaded.
  pub load_persisted_state-persist :
      IsFaithful codec
      → (lines : LineCodec F) (read : String → Option (List String)) (now : Time) (b : Aggregator F)
      → (db : BlockStore F) (reasons dist : String) → a.store ≡ some db
      → db.faults ≡ []
      → a.stats_loaded ≡ true
      → codec.marshal_reasons a.alltime_reject_reasons ≡ some reasons
      → codec.marshal_dist dist_of ≡ some dist
      → b.store ≡ (persist_share_stats codec a).store
      → IsLoaded (load_persisted_state codec lines read now b)
  load_persisted_state-persist law lines read now b db reasons dist there ok loaded r d next =
      let saved =
        IsSaved-moved reasons dist (sym next)
          (persist-IsSaved db reasons dist there ok loaded r d) in
      let best = IsSaved-best reasons dist codec _ (IsSaved-counters reasons dist codec b saved) in
      let hash = IsSaved-backfill_hash reasons dist codec lines read _ best in
      let pow = IsSaved-backfill_pow reasons dist codec lines read now _ hash in
      let acked =
        IsSaved-restore reasons dist "acked_best_diff" codec.parse_float _ _ (λ x c. refl) pow in
      let rest = IsSaved-latency reasons dist codec _ acked in
      let full =
        load_hashrate-IsLoaded now _ (load_share_stats-IsLoaded law reasons dist _ r d rest) in
      let chain : Aggregator F = load_hashrate now (
        load_share_stats codec (
          load_latency codec (
            restore_kv "acked_best_diff" codec.parse_float (λ x c. record c { acked_best_diff = x })
              (backfill_pow codec lines read now
                (backfill_hash codec lines read (load_best codec (load_counters codec b))))))) in
      let same : load_persisted_state codec lines read now b ≡ chain =
        unfold load_persisted_state in ap (λ o. elim o [ none ↦ b | some _ ↦ chain ]) saved.there in
      subst IsLoaded (sym same) full
