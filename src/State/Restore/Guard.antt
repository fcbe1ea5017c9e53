-- ===== src/State/Restore/Guard.antt =====
-- What share events may write before the statistics are loaded.
use mathlib.Core.Path.{subst}
use kamado_pool.Base.{
  ◌≡◌, refl, sym, ap, ◌∙◌, Bool, true, false, List, [], ◌∷◌, Option, none, some, String, str_eq,
  eq_iff, arith, if◌then◌else◌,
}
use kamado_pool.Base.Time.{Time}
use kamado_pool.Base.Float.{Float64}
use kamado_pool.Base.Dict
use kamado_pool.Store.Blocks.{upsert, set_kv}
use kamado_pool.Store.Table.{BlockStore, find_row}
use kamado_pool.State.Types.{Aggregator, ShareEvent}
use kamado_pool.State.Codec.{Codec}
use kamado_pool.State.Shares.{
  save_kv, save_text, park_pow, count_rejected, count_accepted, persist_share_stats, promote_pow,
  track_best, save_share_stats, ingest_share, ingest_shares,
}

-- the value of a key, "" where it has none
unfoldable pub lookup : String → List (String × String) → String
lookup key kv = elim (find_row (λ (e : String × String). str_eq e.0 key) kv) [
  | none ↦ ""
  | some e ↦ e.1
]

pub lookup-upsert :
    (j k v : String) (kv : List (String × String))
    → lookup j (upsert k v kv) ≡ (if str_eq k j then v else lookup j kv)
unfolding lookup upsert find_row
lookup-upsert j k v [] = ground arith
lookup-upsert j k v ((i, w) ∷ kv) =
    ground (arith, eq_iff k j, eq_iff i k, eq_iff i j, lookup-upsert j k v kv)

-- the value that the database has for a key
unfoldable pub stored : {F : Type 0} → String → Option (BlockStore F) → String
stored key o = elim o [ none ↦ "" | some s ↦ lookup key s.kv ]

-- a text that is saved under a key, or is lost, leaves the others alone
pub save_kv-stored :
    {F : Type 0} (j k v : String) (a : Aggregator F)
    → str_eq k j ≡ false
    → stored j (save_kv k v a).store ≡ stored j a.store
unfolding save_kv stored set_kv
save_kv-stored {F = F} j k v a ne = set_stored a.store
  where
    set_stored :
        (o : Option (BlockStore F))
        → stored j (elim o [ none ↦ none | some s ↦ some (set_kv k v s).0 ]) ≡ stored j o
    set_stored none = refl
    set_stored (some s) = ground (arith, ne, lookup-upsert j k v s.kv)

-- A key other than those that a new best share writes.
pub record IsStatsKey (j : String) : Type 0 where
  pub best_diff : str_eq "best_diff" j ≡ false
  pub best_share_hash : str_eq "best_share_hash" j ≡ false
  pub best_share_net_diff : str_eq "best_share_net_diff" j ≡ false
  pub best_share_pow : str_eq "best_share_pow" j ≡ false

persist-unloaded :
    {F : Type 0} ⦃fl : Float64 F⦄ (codec : Codec F) (a : Aggregator F)
    → a.stats_loaded ≡ false
    → persist_share_stats codec a ≡ a
unfolding persist_share_stats
persist-unloaded codec a h = ground arith

module _ {F : Type 0} ⦃fl : Float64 F⦄ (codec : Codec F) (j : String) (key : IsStatsKey j) where
  -- the text under the key is that of the database o, and the statistics are not loaded
  record IsKept (o : Option (BlockStore F)) (a : Aggregator F) : Type 0 where
    text : stored j a.store ≡ stored j o
    unloaded : a.stats_loaded ≡ false

  module _ {o : Option (BlockStore F)} where
    IsKept-kv :
        (k v : String) (a : Aggregator F)
        → str_eq k j ≡ false
        → IsKept o a
        → IsKept o (save_kv k v a)
    IsKept-kv k v a ne h = record {
      text = save_kv-stored j k v a ne ∙ h.text;
      unloaded = unfold save_kv in h.unloaded;
    }

    IsKept-text :
        (k : String) (text : Option String) (a : Aggregator F)
        → str_eq k j ≡ false
        → IsKept o a
        → IsKept o (save_text codec k text a)
    IsKept-text k none a ne h = h
    IsKept-text k (some t) a ne h = IsKept-kv k t a ne h

    IsKept-if :
        (b : Bool) {x y : Aggregator F} → IsKept o x → IsKept o y → IsKept o (if b then x else y)
    IsKept-if true p q = p
    IsKept-if false p q = q

    IsKept-option :
        {A : Type 0} (v : Option A) {x : Aggregator F} (f : A → Aggregator F)
        → IsKept o x
        → ((u : A) → IsKept o (f u))
        → IsKept o (elim v [ none ↦ x | some u ↦ f u ])
    IsKept-option none f p q = p
    IsKept-option (some u) f p q = q u

    moved :
        {a b : Aggregator F}
        → a.store ≡ b.store
        → a.stats_loaded ≡ b.stats_loaded
        → IsKept o a
        → IsKept o b
    moved p q h = record { text = ap (stored j) (sym p) ∙ h.text; unloaded = sym q ∙ h.unloaded }

    promote-IsKept :
        (now : Time) (hash : String) (a : Aggregator F)
        → IsKept o a
        → IsKept o (promote_pow codec now hash a)
    unfolding promote_pow
    promote-IsKept now hash a h = IsKept-option (Dict.get hash a.pending_pow) _ h (λ pow.
        IsKept-if _ (IsKept-text "best_share_pow" _ _ key.best_share_pow (moved refl refl h))
          (moved refl refl h))

    track-IsKept :
        (diff : F) (hash : String) (a : Aggregator F)
        → IsKept o a
        → IsKept o (track_best codec diff hash a)
    unfolding track_best
    track-IsKept diff hash a h =
        let two =
          IsKept-kv "best_share_hash" _ _ key.best_share_hash
            (IsKept-kv "best_diff" _ _ key.best_diff (moved refl refl h)) in
        IsKept-if _
          (IsKept-if _ (IsKept-kv "best_share_net_diff" _ _ key.best_share_net_diff two) two) h

    save-IsKept :
        (now : Time) (a : Aggregator F) → IsKept o a → IsKept o (save_share_stats codec now a)
    unfolding save_share_stats
    save-IsKept now a h =
        let a' : Aggregator F = record a { last_share_stats_save = now } in
        let same : a' ≡ persist_share_stats codec a' = sym (persist-unloaded codec a' h.unloaded) in
        IsKept-option a.store _ h (λ s. IsKept-if _ (subst (IsKept o) same (moved refl refl h)) h)

    ingest-IsKept :
        (now : Time) (ev : ShareEvent F) (a : Aggregator F)
        → IsKept o a
        → IsKept o (ingest_share codec now ev a)
    unfolding ingest_share park_pow count_rejected count_accepted
    ingest-IsKept now ev a h =
        IsKept-option ev.pow (λ pow. park_pow pow a)
          (save-IsKept now _ (
            IsKept-if ev.rejected (moved refl refl h)
              (track-IsKept ev.diff ev.hash _ (promote-IsKept now ev.hash _ (moved refl refl h)))))
          (λ pow. moved refl refl h)

    ingest_all-IsKept :
        (evs : List (Time × ShareEvent F)) (a : Aggregator F)
        → IsKept o a
        → IsKept o (ingest_shares codec evs a)
    unfolding ingest_shares
    ingest_all-IsKept [] a h = h
    ingest_all-IsKept ((now, ev) ∷ evs) a h = ingest_all-IsKept evs _ (ingest-IsKept now ev a h)

  -- Until the stored statistics are loaded, no share event, accepted, rejected or with a PoW record,
  -- changes what the database has under a key other than those of the best share, such as the two
  -- keys of the all-time statistics: the restore that is still to come finds what was saved before.
  pub ingest_shares-unloaded :
      (evs : List (Time × ShareEvent F)) (a : Aggregator F)
      → a.stats_loaded ≡ false
      → stored j (ingest_shares codec evs a).store ≡ stored j a.store
  ingest_shares-unloaded evs a h =
      (ingest_all-IsKept evs a (record { text = refl; unloaded = h })).text
