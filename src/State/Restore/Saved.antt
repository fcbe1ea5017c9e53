-- ===== src/State/Restore/Saved.antt =====
-- A database that has the share statistics keeps them while the aggregator loads the rest.
use kamado_pool.Base.{
  ◌≡◌, refl, sym, ap, ◌∙◌, Bool, true, false, List, [], Option, none, some, String, str_eq, arith,
  if◌then◌else◌,
}
use kamado_pool.Base.Time.{Time}
use kamado_pool.Base.Float.{Float64}
use kamado_pool.Store.Blocks.{get_kv, set_kv, upsert}
use kamado_pool.Store.Laws.{query-faultless, exec-faultless}
use kamado_pool.Store.Table.{BlockStore}
use kamado_pool.State.Types.{Aggregator}
use kamado_pool.State.Codec.{Codec}
use kamado_pool.State.Shares.{save_kv, save_text}
use kamado_pool.Logmon.{LineCodec}
use kamado_pool.Logmon.Scan.{PowScan, find_best_pow_data}
use kamado_pool.State.Restore.{
  restore_kv, load_counters, load_best, backfill_hash, adopt_diff, adopt_hash, adopt_pow,
  backfill_pow, load_latency,
}
use kamado_pool.State.Restore.Guard.{lookup, lookup-upsert}

module _ {F : Type 0} (reasons dist : String) where
  -- a database without faults that has the two texts
  pub record IsSaved (a : Aggregator F) : Type 0 where
    pub db : BlockStore F
    pub there : a.store ≡ some db
    pub faultless : db.faults ≡ []
    pub reasons_text : lookup "reject_reasons_alltime" db.kv ≡ reasons
    pub dist_text : lookup "diff_dist_alltime" db.kv ≡ dist

  pub IsSaved-moved : {a b : Aggregator F} → a.store ≡ b.store → IsSaved a → IsSaved b
  IsSaved-moved e h = record {
    db = h.db;
    there = sym e ∙ h.there;
    faultless = h.faultless;
    reasons_text = h.reasons_text;
    dist_text = h.dist_text;
  }

-- what is done with a text that was read
unfoldable pub use_text :
    {F A : Type 0}
    → (String → Option A)
    → (A → Aggregator F → Aggregator F)
    → String
    → Aggregator F
    → Aggregator F
use_text parse set text a =
    if str_eq text "" then a else elim (parse text) [ none ↦ a | some x ↦ set x a ]

-- restore_kv after the statement
after_read :
    {F A : Type 0}
    → (String → Option A)
    → (A → Aggregator F → Aggregator F)
    → Aggregator F
    → BlockStore F × Option String
    → Aggregator F
after_read {F = F} parse set a (s', value) =
    let a' : Aggregator F = record a { store = some s' } in
    elim value [
      | none ↦ a'
      | some text ↦
          if str_eq text "" then a' else elim (parse text) [ none ↦ a' | some x ↦ set x a' ]
    ]

pub get_kv-faultless :
    {F : Type 0} (key : String) (db : BlockStore F)
    → db.faults ≡ []
    → get_kv key db ≡ (db, some (lookup key db.kv))
unfolding get_kv lookup
get_kv-faultless key db h = query-faultless (λ s. lookup key s.kv) db h

pub use_text-some :
    {F A : Type 0} (parse : String → Option A) (set : A → Aggregator F → Aggregator F) (t : String)
    (x : A) (a : Aggregator F)
    → str_eq t "" ≡ false
    → parse t ≡ some x
    → use_text parse set t a ≡ set x a
unfolding use_text
use_text-some parse set t x a filled back = rw (filled, back) refl

pub save_kv-faultless :
    {F : Type 0} (k v : String) (a : Aggregator F) (db : BlockStore F)
    → a.store ≡ some db
    → db.faults ≡ []
    → (save_kv k v a).store ≡ some (record db { kv = upsert k v db.kv })
unfolding save_kv set_kv
save_kv-faultless k v a db there faultless =
    ap (λ o. elim o [ none ↦ none | some s ↦ some (set_kv k v s).0 ]) there
    ∙ ap (λ r. some r.0) (exec-faultless (λ s. record s { kv = upsert k v s.kv }) db faultless)

pub restore_kv-faultless :
    {F A : Type 0} (key : String) (parse : String → Option A)
    (set : A → Aggregator F → Aggregator F) (a : Aggregator F) (db : BlockStore F)
    → a.store ≡ some db
    → db.faults ≡ []
    → restore_kv key parse set a ≡ use_text parse set (lookup key db.kv) a
unfolding restore_kv use_text after_read
restore_kv-faultless key parse set a db there faultless =
    ap (λ o. restore_kv key parse set (record a { store = o })) there
    ∙ ap (after_read parse set a) (get_kv-faultless key db faultless)
    ∙ ap (λ o. use_text parse set (lookup key db.kv) (record a { store = o })) (sym there)

module _ {F : Type 0} (reasons dist : String) where
  pub saved_use :
      {A : Type 0} (parse : String → Option A) (set : A → Aggregator F → Aggregator F)
      (text : String) (a : Aggregator F)
      → ((x : A) (b : Aggregator F) → (set x b).store ≡ b.store)
      → (use_text parse set text a).store ≡ a.store
  unfolding use_text
  saved_use parse set text a keeps =
      elim (parse text)
        as (λ o.
          (if str_eq text "" then a else elim o [ none ↦ a | some x ↦ set x a ]).store ≡ a.store) [
            | none ↦ ground arith
            | some x ↦ (let kept = keeps x a in ground arith)
          ]

  pub IsSaved-restore :
      {A : Type 0} (key : String) (parse : String → Option A)
      (set : A → Aggregator F → Aggregator F) (a : Aggregator F)
      → ((x : A) (b : Aggregator F) → (set x b).store ≡ b.store)
      → IsSaved reasons dist a
      → IsSaved reasons dist (restore_kv key parse set a)
  IsSaved-restore key parse set a keeps h =
      IsSaved-moved reasons dist
        (sym (saved_use parse set _ a keeps)
          ∙ sym (ap (λ b. b.store) (restore_kv-faultless key parse set a h.db h.there h.faultless)))
        h

  pub IsSaved-kv :
      (k v : String) (a : Aggregator F)
      → str_eq k "reject_reasons_alltime" ≡ false
      → str_eq k "diff_dist_alltime" ≡ false
      → IsSaved reasons dist a
      → IsSaved reasons dist (save_kv k v a)
  IsSaved-kv k v a ne ne' h = record {
    db = record h.db { kv = upsert k v h.db.kv };
    there = save_kv-faultless k v a h.db h.there h.faultless;
    faultless = h.faultless;
    reasons_text = lookup-upsert "reject_reasons_alltime" k v h.db.kv ∙ rw ne h.reasons_text;
    dist_text = lookup-upsert "diff_dist_alltime" k v h.db.kv ∙ rw ne' h.dist_text;
  }

  IsSaved-if :
      (b : Bool) {x y : Aggregator F}
      → IsSaved reasons dist x
      → IsSaved reasons dist y
      → IsSaved reasons dist (if b then x else y)
  IsSaved-if true p q = p
  IsSaved-if false p q = q

  IsSaved-option :
      {A : Type 0} (v : Option A) {x : Aggregator F} (f : A → Aggregator F)
      → IsSaved reasons dist x
      → ((u : A) → IsSaved reasons dist (f u))
      → IsSaved reasons dist (elim v [ none ↦ x | some u ↦ f u ])
  IsSaved-option none f p q = p
  IsSaved-option (some u) f p q = q u

  module _ ⦃fl : Float64 F⦄ (codec : Codec F) where
    pub IsSaved-counters :
        (a : Aggregator F) → IsSaved reasons dist a → IsSaved reasons dist (load_counters codec a)
    unfolding load_counters
    IsSaved-counters a h =
        IsSaved-restore _ _ _ _ (λ n b. refl)
          (IsSaved-restore _ _ _ _ (λ n b. refl)
            (IsSaved-restore _ _ _ _ (λ n b. refl)
              (IsSaved-restore _ _ _ _ (λ n b. refl) (IsSaved-restore _ _ _ a (λ x b. refl) h))))

    pub IsSaved-best :
        (a : Aggregator F) → IsSaved reasons dist a → IsSaved reasons dist (load_best codec a)
    unfolding load_best
    IsSaved-best a h =
        IsSaved-restore _ _ _ _ (λ n b. refl)
          (IsSaved-restore _ _ _ _ (λ n b. refl)
            (IsSaved-restore _ _ _ _ (λ n b. refl) (IsSaved-restore _ _ _ a (λ n b. refl) h)))

    pub IsSaved-latency :
        (a : Aggregator F) → IsSaved reasons dist a → IsSaved reasons dist (load_latency codec a)
    unfolding load_latency
    IsSaved-latency a h =
        IsSaved-restore _ _ _ _ (λ n b. refl)
          (IsSaved-restore _ _ _ _ (λ n b. refl)
            (IsSaved-restore _ _ _ _ (λ n b. refl) (IsSaved-restore _ _ _ a (λ n b. refl) h)))

    IsSaved-text :
        (text : Option String) (a : Aggregator F)
        → IsSaved reasons dist a
        → IsSaved reasons dist (save_text codec "best_share_pow" text a)
    IsSaved-text none a h = h
    IsSaved-text (some t) a h = IsSaved-kv "best_share_pow" t a refl refl h

    IsSaved-adopt_diff :
        (diff : F) (a : Aggregator F)
        → IsSaved reasons dist a
        → IsSaved reasons dist (adopt_diff codec diff a)
    unfolding adopt_diff
    IsSaved-adopt_diff diff a h =
        IsSaved-if (fl.lt a.best_diff diff)
          (IsSaved-kv "best_diff" (codec.format_float diff) _ refl refl
            (IsSaved-moved reasons dist refl h))
          h

    IsSaved-adopt_hash :
        (found : F × String) (a : Aggregator F)
        → IsSaved reasons dist a
        → IsSaved reasons dist (adopt_hash codec found a)
    unfolding adopt_hash
    IsSaved-adopt_hash (diff, hash) a h = IsSaved-if (str_eq hash "") h (
        IsSaved-kv "best_share_hash" hash _ refl refl
          (IsSaved-adopt_diff diff _ (IsSaved-moved reasons dist refl h)))

    IsSaved-adopt_pow :
        (now : Time) (found : PowScan F) (a : Aggregator F)
        → IsSaved reasons dist a
        → IsSaved reasons dist (adopt_pow codec now found a)
    unfolding adopt_pow
    IsSaved-adopt_pow now found a h =
        IsSaved-option found.best _ h (λ pow. IsSaved-text _ _ (IsSaved-moved reasons dist refl h))

    module _ (lines : LineCodec F) (read : String → Option (List String)) where
      pub IsSaved-backfill_hash :
          (a : Aggregator F)
          → IsSaved reasons dist a
          → IsSaved reasons dist (backfill_hash codec lines read a)
      unfolding backfill_hash
      IsSaved-backfill_hash a h =
          IsSaved-if (str_eq a.log_file_path "") h
            (IsSaved-if (str_eq a.best_share_hash "") (IsSaved-adopt_hash _ a h) h)

      pub IsSaved-backfill_pow :
          (now : Time) (a : Aggregator F)
          → IsSaved reasons dist a
          → IsSaved reasons dist (backfill_pow codec lines read now a)
      unfolding backfill_pow
      IsSaved-backfill_pow now a h =
          IsSaved-option a.best_pow _
            (IsSaved-if (str_eq a.log_file_path "") h (
              IsSaved-option (read a.log_file_path) _ h
                (λ text. IsSaved-adopt_pow now (find_best_pow_data lines text) a h)))
            (λ p. h)
