-- ===== src/State/Shares/Totals.antt =====
-- The histogram against the counter beside it, and against a recount of the same shares.
use kamado_pool.Base.{
  ℕ, ◌+◌, ◌%◌, ◌^◌, ◌≡◌, refl, sym, ◌∙◌, ap, List, [], ◌∷◌, none, some, String, str_eq, arith,
  if◌then◌else◌,
}
use kamado_pool.Base.Word.{Int64, add64}
use kamado_pool.Base.Time.{Time}
use kamado_pool.Base.Float.{Float64}
use kamado_pool.Base.Dict
use kamado_pool.State.Types.{Aggregator, ShareEvent, DiffDist}
use kamado_pool.State.Codec.{Codec}
use kamado_pool.State.Shares.{
  diff_bucket, count_bucket, save_kv, persist_share_stats, park_pow, count_rejected, count_accepted,
  promote_pow, track_best, save_share_stats, ingest_share, ingest_shares, bucket_all,
}

-- The sum of the buckets, as an int64.
abbrev pub total : DiffDist → Int64
total d = (d.b0 + d.b1 + d.b2 + d.b3 + d.b4 + d.b5) % 2 ^ 64

pub total-count_bucket : (i : ℕ) (d : DiffDist) → total (count_bucket i d) ≡ add64 (total d) 1
unfolding count_bucket add64
total-count_bucket i d = ground arith

-- Both histograms add up to their counters.
pub record IsTallied {F : Type 0} (a : Aggregator F) : Type 0 where
  pub session : total a.session_diff_dist ≡ a.session_diff_count
  pub alltime : total a.alltime_diff_dist ≡ a.alltime_diff_count

-- The same counters, histograms and reasons.
pub record SameCounts {F : Type 0} (a b : Aggregator F) : Type 0 where
  pub session_dist : a.session_diff_dist ≡ b.session_diff_dist
  pub alltime_dist : a.alltime_diff_dist ≡ b.alltime_diff_dist
  pub session_count : a.session_diff_count ≡ b.session_diff_count
  pub alltime_count : a.alltime_diff_count ≡ b.alltime_diff_count
  pub session_reasons : a.session_reject_reasons ≡ b.session_reject_reasons
  pub alltime_reasons : a.alltime_reject_reasons ≡ b.alltime_reject_reasons

module _ {F : Type 0} where
  same : (a : Aggregator F) → SameCounts a a
  same a = record {
    session_dist = refl;
    alltime_dist = refl;
    session_count = refl;
    alltime_count = refl;
    session_reasons = refl;
    alltime_reasons = refl;
  }

  same_trans : {a b c : Aggregator F} → SameCounts a b → SameCounts b c → SameCounts a c
  same_trans p q = record {
    session_dist = p.session_dist ∙ q.session_dist;
    alltime_dist = p.alltime_dist ∙ q.alltime_dist;
    session_count = p.session_count ∙ q.session_count;
    alltime_count = p.alltime_count ∙ q.alltime_count;
    session_reasons = p.session_reasons ∙ q.session_reasons;
    alltime_reasons = p.alltime_reasons ∙ q.alltime_reasons;
  }

module _ {F : Type 0} where
  -- the difficulties of the accepted shares among the events, in order
  unfoldable pub accepted_diffs : List (Time × ShareEvent F) → List F
  accepted_diffs [] = []
  accepted_diffs ((now, ev) ∷ evs) =
      let rest = accepted_diffs evs in
      elim ev.pow [ some _ ↦ rest | none ↦ if ev.rejected then rest else ev.diff ∷ rest ]

  -- the reasons of the rejected ones, counted into a map
  unfoldable pub rejected_reasons :
      List (Time × ShareEvent F) → List (String × Int64) → List (String × Int64)
  rejected_reasons [] m = m
  rejected_reasons ((now, ev) ∷ evs) m = rejected_reasons evs (elim ev.pow [
    | some _ ↦ m
    | none ↦
        if ev.rejected
        then Dict.increment (if str_eq ev.reason "" then "Unknown" else ev.reason) m
        else m
  ])

module _ {F : Type 0} ⦃fl : Float64 F⦄ (codec : Codec F) where
  persist-same : (a : Aggregator F) → SameCounts (persist_share_stats codec a) a
  unfolding persist_share_stats save_kv
  persist-same a = ground arith

  save-same : (now : Time) (a : Aggregator F) → SameCounts (save_share_stats codec now a) a
  unfolding save_share_stats
  save-same now a = ground (arith, persist-same (record a { last_share_stats_save = now }))

  promote-same :
      (now : Time) (hash : String) (a : Aggregator F) → SameCounts (promote_pow codec now hash a) a
  unfolding promote_pow save_kv
  promote-same now hash a = ground arith

  track-same :
      (diff : F) (hash : String) (a : Aggregator F) → SameCounts (track_best codec diff hash a) a
  unfolding track_best save_kv
  track-same diff hash a = ground arith

  -- What one event adds to the counters, whatever is saved or promoted beside it.
  abbrev counted : ShareEvent F → Aggregator F → Aggregator F
  counted ev a = elim ev.pow [
    | some _ ↦ a
    | none ↦ if ev.rejected then count_rejected ev.reason a else count_accepted ev.diff a
  ]

  ingest-same :
      (now : Time) (ev : ShareEvent F) (a : Aggregator F)
      → SameCounts (ingest_share codec now ev a) (counted ev a)
  unfolding ingest_share park_pow
  ingest-same now ev a =
      let a1 = count_accepted ev.diff a in
      let a2 = promote_pow codec now ev.hash a1 in
      let a3 = track_best codec ev.diff ev.hash a2 in
      let rejected = save-same now (count_rejected ev.reason a) in
      let accepted =
        same_trans (save-same now a3)
          (same_trans (track-same ev.diff ev.hash a2) (promote-same now ev.hash a1)) in
      ground arith

  counted-IsTallied :
      (ev : ShareEvent F) (a : Aggregator F) → IsTallied a → IsTallied (counted ev a)
  unfolding count_rejected count_accepted
  counted-IsTallied ev a t =
      let bucket = diff_bucket ev.diff in
      ground (
        arith,
        total-count_bucket bucket a.session_diff_dist,
        total-count_bucket bucket a.alltime_diff_dist,
      )

  IsTallied-same : {a b : Aggregator F} → SameCounts a b → IsTallied b → IsTallied a
  IsTallied-same s t = record {
    session = ap total s.session_dist ∙ t.session ∙ sym s.session_count;
    alltime = ap total s.alltime_dist ∙ t.alltime ∙ sym s.alltime_count;
  }

  -- Every sequence of share events, accepted, rejected or PoW records, keeps the buckets of both
  -- histograms adding up to the counters beside them, in int64 arithmetic.
  pub ingest_shares-IsTallied :
      (evs : List (Time × ShareEvent F)) (a : Aggregator F)
      → IsTallied a
      → IsTallied (ingest_shares codec evs a)
  unfolding ingest_shares
  ingest_shares-IsTallied [] a t = t
  ingest_shares-IsTallied ((now, ev) ∷ evs) a t =
      ingest_shares-IsTallied evs (ingest_share codec now ev a)
        (IsTallied-same (ingest-same now ev a) (counted-IsTallied ev a t))

  recount_diffs :
      (evs : List (Time × ShareEvent F)) (a : Aggregator F)
      → (ingest_shares codec evs a).alltime_diff_dist
        ≡ bucket_all (accepted_diffs evs) a.alltime_diff_dist
  unfolding ingest_shares accepted_diffs bucket_all count_rejected count_accepted
  recount_diffs [] a = refl
  recount_diffs ((now, ev) ∷ evs) a =
      ground (
        arith,
        recount_diffs evs (ingest_share codec now ev a),
        (ingest-same now ev a).alltime_dist,
      )

  recount_reasons :
      (evs : List (Time × ShareEvent F)) (a : Aggregator F)
      → (ingest_shares codec evs a).alltime_reject_reasons
        ≡ rejected_reasons evs a.alltime_reject_reasons
  unfolding ingest_shares rejected_reasons count_rejected count_accepted
  recount_reasons [] a = refl
  recount_reasons ((now, ev) ∷ evs) a = ground (
    arith,
    recount_reasons evs (ingest_share codec now ev a),
    (ingest-same now ev a).alltime_reasons,
  )

  -- Counting the share events one by one gives the all-time histogram that a recount of the same
  -- accepted difficulties gives, as the rebuild from the log does it, and the all-time reasons that a
  -- count of the same rejections gives. Parked PoW records, saves and best-share updates in between
  -- change neither.
  pub ingest_shares-recount :
      (evs : List (Time × ShareEvent F)) (a : Aggregator F)
      → let a' = ingest_shares codec evs a in
        (a'.alltime_diff_dist ≡ bucket_all (accepted_diffs evs) a.alltime_diff_dist)
        × (a'.alltime_reject_reasons ≡ rejected_reasons evs a.alltime_reject_reasons)
  ingest_shares-recount evs a = (recount_diffs evs a, recount_reasons evs a)
