-- ===== src/State/Shares/Pending.antt =====
-- The map of parked PoW records stays bounded.
use kamado_pool.Base.{◌≤◌, ◌≡◌, List, [], ◌∷◌, String, arith, Option-cases, inl, inr, length}
use kamado_pool.Base.Time.{Time}
use kamado_pool.Base.Float.{Float64}
use kamado_pool.Base.Dict
use kamado_pool.State.Types.{Aggregator, ShareEvent, PowData}
use kamado_pool.State.Codec.{Codec}
use kamado_pool.State.Shares.{
  save_kv, persist_share_stats, park_pow, count_rejected, count_accepted, promote_pow, track_best,
  save_share_stats, ingest_share, ingest_shares,
}

abbrev pub IsBounded : {F : Type 0} → Aggregator F → Type 0
IsBounded a = length a.pending_pow ≤ 16

module _ {F : Type 0} ⦃fl : Float64 F⦄ (codec : Codec F) where
  park_pow-IsBounded :
      (pow : PowData F) (a : Aggregator F) → IsBounded a → IsBounded (park_pow pow a)
  unfolding park_pow
  park_pow-IsBounded pow a h =
      ground
        (arith, Dict.length-put-le pow.hash pow a.pending_pow, Dict.length-put-le pow.hash pow [])

  promote_pow-IsBounded :
      (now : Time) (hash : String) (a : Aggregator F)
      → IsBounded a
      → IsBounded (promote_pow codec now hash a)
  unfolding promote_pow save_kv
  promote_pow-IsBounded now hash a h = ground (arith, Dict.length-delete-le hash a.pending_pow)

  track_best-pending :
      (diff : F) (hash : String) (a : Aggregator F)
      → (track_best codec diff hash a).pending_pow ≡ a.pending_pow
  unfolding track_best save_kv
  track_best-pending diff hash a = ground arith

  save_share_stats-pending :
      (now : Time) (a : Aggregator F) → (save_share_stats codec now a).pending_pow ≡ a.pending_pow
  unfolding save_share_stats persist_share_stats save_kv
  save_share_stats-pending now a = ground arith

  ingest_share-IsBounded :
      (now : Time) (ev : ShareEvent F) (a : Aggregator F)
      → IsBounded a
      → IsBounded (ingest_share codec now ev a)
  unfolding ingest_share count_rejected count_accepted
  ingest_share-IsBounded now ev a h =
      let a1 = count_accepted ev.diff a in
      let a2 = promote_pow codec now ev.hash a1 in
      let a3 = track_best codec ev.diff ev.hash a2 in
      elim (Option-cases ev.pow) [
        | inl e ↦ ground (
          arith,
          save_share_stats-pending now (count_rejected ev.reason a),
          save_share_stats-pending now a3,
          track_best-pending ev.diff ev.hash a2,
          promote_pow-IsBounded now ev.hash a1 h,
        )
        | inr (pow, e) ↦ ground (arith, park_pow-IsBounded pow a h)
      ]

  -- However many PoW records come without their accepted share, at most 16 are parked.
  pub ingest_shares-IsBounded :
      (evs : List (Time × ShareEvent F)) (a : Aggregator F)
      → IsBounded a
      → IsBounded (ingest_shares codec evs a)
  unfolding ingest_shares
  ingest_shares-IsBounded [] a h = h
  ingest_shares-IsBounded ((now, ev) ∷ evs) a h =
      ingest_shares-IsBounded evs (ingest_share codec now ev a) (ingest_share-IsBounded now ev a h)
