-- ===== src/State/Shares/Best.antt =====
-- The best difficulty is a high-water mark over the accepted shares.
use kamado_pool.Base.{
  ◌≡◌, refl, ◌⊎◌, inl, Bool, true, false, not, ◌&&◌, List, [], ◌∷◌, none, some, String, str_eq,
  arith, All,
}
use kamado_pool.Base.Time.{Time}
use kamado_pool.Base.Float.{Float64, IsOrdered}
use kamado_pool.State.Types.{Aggregator, ShareEvent}
use kamado_pool.State.Codec.{Codec}
use kamado_pool.State.Shares.{
  save_kv, persist_share_stats, park_pow, count_rejected, count_accepted, promote_pow, track_best,
  save_share_stats, ingest_share, ingest_shares,
}

-- y is x, or above it
abbrev pub IsRise : {F : Type 0} → Float64 F → F → F → Type 0
IsRise fl x y = (y ≡ x) ⊎ (fl.lt x y ≡ true)

-- an accepted share with a hash
pub is_hashed : {F : Type 0} → ShareEvent F → Bool
is_hashed ev = elim ev.pow [ none ↦ not ev.rejected && not (str_eq ev.hash "") | some _ ↦ false ]

module _ {F : Type 0} ⦃fl : Float64 F⦄ where
  -- no event of the list with a hash is above `best`
  abbrev pub Bounds : F → List (Time × ShareEvent F) → Type 0
  Bounds best = All (λ e. is_hashed e.1 ≡ true → fl.lt best e.1.diff ≡ false)

module _ {F : Type 0} ⦃fl : Float64 F⦄ (codec : Codec F) (laws : IsOrdered fl) where
  open laws use {lt_irrefl, lt_trans}

  pub IsRise-trans : {x y z : F} → IsRise fl x y → IsRise fl y z → IsRise fl x z
  IsRise-trans {x} {y} {z} p q = ground (arith, lt_trans x y z)

  track_best-IsRise :
      (diff : F) (hash : String) (a : Aggregator F)
      → IsRise fl a.best_diff (track_best codec diff hash a).best_diff
  unfolding track_best save_kv
  track_best-IsRise diff hash a = ground arith

  track_best-bound :
      (diff : F) (hash : String) (a : Aggregator F)
      → str_eq hash "" ≡ false
      → fl.lt (track_best codec diff hash a).best_diff diff ≡ false
  unfolding track_best save_kv
  track_best-bound diff hash a e = ground (arith, lt_irrefl diff)

  promote_pow-best :
      (now : Time) (hash : String) (a : Aggregator F)
      → (promote_pow codec now hash a).best_diff ≡ a.best_diff
  unfolding promote_pow save_kv
  promote_pow-best now hash a = ground arith

  save-best :
      (now : Time) (a : Aggregator F) → (save_share_stats codec now a).best_diff ≡ a.best_diff
  unfolding save_share_stats persist_share_stats save_kv
  save-best now a = ground arith

  module _ (now : Time) (ev : ShareEvent F) (a : Aggregator F) where
    ingest_share-IsRise : IsRise fl a.best_diff (ingest_share codec now ev a).best_diff
    unfolding ingest_share park_pow count_rejected count_accepted
    ingest_share-IsRise =
        let a1 = count_accepted ev.diff a in
        let a2 = promote_pow codec now ev.hash a1 in
        let a3 = track_best codec ev.diff ev.hash a2 in
        ground (
          arith,
          save-best now (count_rejected ev.reason a),
          save-best now a3,
          track_best-IsRise ev.diff ev.hash a2,
          promote_pow-best now ev.hash a1,
        )

    ingest_share-bound :
        is_hashed ev ≡ true → fl.lt (ingest_share codec now ev a).best_diff ev.diff ≡ false
    unfolding ingest_share is_hashed
    ingest_share-bound h =
        let a2 = promote_pow codec now ev.hash (count_accepted ev.diff a) in
        ground (
          arith,
          save-best now (track_best codec ev.diff ev.hash a2),
          track_best-bound ev.diff ev.hash a2,
        )

  pub rise-bound : {x y : F} (d : F) → IsRise fl x y → fl.lt x d ≡ false → fl.lt y d ≡ false
  rise-bound {x} {y} d r h = ground (arith, lt_trans x y d)

  run-IsRise :
      (evs : List (Time × ShareEvent F)) (a : Aggregator F)
      → IsRise fl a.best_diff (ingest_shares codec evs a).best_diff
  unfolding ingest_shares
  run-IsRise [] a = inl refl
  run-IsRise ((now, ev) ∷ evs) a =
      IsRise-trans (ingest_share-IsRise now ev a) (run-IsRise evs (ingest_share codec now ev a))

  run-bound :
      (evs : List (Time × ShareEvent F)) (a : Aggregator F)
      → Bounds (ingest_shares codec evs a).best_diff evs
  unfolding ingest_shares
  run-bound [] a = tt
  run-bound ((now, ev) ∷ evs) a =
      let a' = ingest_share codec now ev a in
      (
        λ h. rise-bound ev.diff (run-IsRise evs a') (ingest_share-bound now ev a h),
        run-bound evs a',
      )

  -- Over any sequence of share events the best difficulty never falls (it is the old one, or above
  -- it), and at the end no accepted share of the sequence that came with a hash is above it. The
  -- comparison of floats is a strict order.
  pub ingest_shares-best :
      (evs : List (Time × ShareEvent F)) (a : Aggregator F)
      → let best = (ingest_shares codec evs a).best_diff in
        IsRise fl a.best_diff best × Bounds best evs
  ingest_shares-best evs a = (run-IsRise evs a, run-bound evs a)
