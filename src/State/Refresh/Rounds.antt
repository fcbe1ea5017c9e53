-- ===== src/State/Refresh/Rounds.antt =====
-- What the parts of refresh leave alone, and what its calls before the lock set.
use kamado_pool.Base.{
  ◌≡◌, refl, ap, ◌∙◌, inl, inr, Bool, false, Option, none, some, String, Option-cases, ◌/◌, arith,
  if◌then◌else◌,
}
use kamado_pool.Base.Word.{Int64, add64}
use kamado_pool.Base.Time.{Time}
use kamado_pool.Base.Float.{Float64}
use kamado_pool.State.Types.{Aggregator, PoolStats, BlockchainInfo}
use kamado_pool.State.Codec.{Codec}
use kamado_pool.State.Shares.{save_kv, reset_session_share_stats}
use kamado_pool.State.Refresh.{
  retarget_interval, empty_snapshot, poll_peers, Reply, answer, failure, Polls, Round, poll_stats,
  poll_ckpool, poll_chain, look_up_start, look_up_tip, retarget, poll, raise_best, integrate_work,
  save_work, integrate_counts, save_counts, sample_hashrate, refresh_reward, track,
}

-- The fields that the parts of a round leave alone.
pub record Frame {F : Type 0} (a b : Aggregator F) : Type 0 where
  pub streak : a.btc_fail_streak ≡ b.btc_fail_streak
  pub killed : a.ckpool_killed ≡ b.ckpool_killed
  pub best : a.best_diff ≡ b.best_diff
  pub attempts : a.block_submit_attempts ≡ b.block_submit_attempts
  pub confirmed : a.block_submits_confirmed ≡ b.block_submits_confirmed

module _ {F : Type 0} where
  trans : {a b c : Aggregator F} → Frame a b → Frame b c → Frame a c
  trans p q = record {
    streak = p.streak ∙ q.streak;
    killed = p.killed ∙ q.killed;
    best = p.best ∙ q.best;
    attempts = p.attempts ∙ q.attempts;
    confirmed = p.confirmed ∙ q.confirmed;
  }

module _ {F : Type 0} ⦃fl : Float64 F⦄ where
  -- the second one if it is above the first
  abbrev pub higher : F → F → F
  higher x y = if fl.lt x y then y else x

  integrate_work-Frame :
      (ps : Option (PoolStats F)) (a : Aggregator F) → Frame (integrate_work ps a) a
  unfolding integrate_work
  integrate_work-Frame none a = ground arith
  integrate_work-Frame (some ps) a = ground arith

  integrate_counts-Frame :
      (ps : Option (PoolStats F)) (a : Aggregator F) → Frame (integrate_counts ps a) a
  unfolding integrate_counts reset_session_share_stats
  integrate_counts-Frame none a = ground arith
  integrate_counts-Frame (some ps) a = ground arith

  sample_hashrate-Frame :
      (now : Time) (v : F) (a : Aggregator F) → Frame (sample_hashrate now v a) a
  unfolding sample_hashrate
  sample_hashrate-Frame now v a = ground arith

  refresh_reward-Frame :
      (now : Time) (polls : Polls F) (r : Round F)
      → Frame (refresh_reward now polls r).agg r.agg
        × ((refresh_reward now polls r).next.best_diff ≡ r.next.best_diff)
  unfolding refresh_reward
  refresh_reward-Frame now polls r = ground arith

module _ {F : Type 0} ⦃fl : Float64 F⦄ (codec : Codec F) where
  save_work-Frame : (now : Time) (a : Aggregator F) → Frame (save_work codec now a) a
  unfolding save_work save_kv
  save_work-Frame now a = ground arith

  save_counts-Frame : (now : Time) (a : Aggregator F) → Frame (save_counts codec now a) a
  unfolding save_counts save_kv
  save_counts-Frame now a = ground arith

  pub track-Frame :
      (now : Time) (polls : Polls F) (r : Round F)
      → Frame (track codec now polls r).agg (raise_best codec r).agg
        × ((track codec now polls r).next.best_diff ≡ (raise_best codec r).next.best_diff)
  unfolding track
  track-Frame now polls r =
      let r1 = raise_best codec r in
      let a0 = integrate_work r1.next.pool r1.agg in
      let a1 = save_work codec now a0 in
      let a1' = integrate_counts r1.next.pool a1 in
      let a2 = save_counts codec now a1' in
      let reward = refresh_reward-Frame now polls _ in
      (
        trans reward.0 (
            trans (sample_hashrate-Frame now r1.next.hashrate_hs a2) (
              trans (save_counts-Frame now a1') (
                trans (integrate_counts-Frame r1.next.pool a1)
                  (trans (save_work-Frame now a0) (integrate_work-Frame r1.next.pool r1.agg))))),
        reward.1,
      )

  -- the high-water mark, in the aggregator and in the snapshot
  pub raise_best_lem :
      (r : Round F)
      → let r' = raise_best codec r in
        (r'.agg.best_diff ≡ higher r.agg.best_diff r.next.best_diff)
        × (r'.next.best_diff ≡ r'.agg.best_diff)
        × (r'.agg.btc_fail_streak ≡ r.agg.btc_fail_streak)
        × (r'.agg.ckpool_killed ≡ r.agg.ckpool_killed)
        × (r'.agg.block_submit_attempts ≡ r.agg.block_submit_attempts)
        × (r'.agg.block_submits_confirmed ≡ r.agg.block_submits_confirmed)
  unfolding raise_best save_kv
  raise_best_lem r = ground arith

-- the streak and the flag after the call of getblockchaininfo
abbrev pub streak_after : {A : Type 0} → Reply A → Int64 → Int64
streak_after (answer _) n = 0
streak_after (failure _) n = add64 n 1

abbrev pub killed_after : {A : Type 0} → Reply A → Bool → Bool
killed_after (answer _) b = false
killed_after (failure _) b = b

module _ {F : Type 0} ⦃fl : Float64 F⦄ where
  look_up_start-Frame :
      (polls : Polls F) (epoch : Int64) (a : Aggregator F) → Frame (look_up_start polls epoch a) a
  unfolding look_up_start
  look_up_start-Frame polls epoch a = ground arith

  look_up_tip-Frame :
      (polls : Polls F) (tip : String) (a : Aggregator F) → Frame (look_up_tip polls tip a) a
  unfolding look_up_tip
  look_up_tip-Frame polls tip a = ground arith

  retarget-Frame : (polls : Polls F) (r : Round F) → Frame (retarget polls r).agg r.agg
  unfolding retarget
  retarget-Frame polls r = elim (Option-cases r.next.chain) [
    | inl e ↦ ground arith
    | inr (info, e) ↦
        let epoch = info.blocks / retarget_interval in
        let started = look_up_start polls epoch r.agg in
        let frame =
          trans (look_up_tip-Frame polls info.best_block_hash started)
            (look_up_start-Frame polls epoch r.agg) in
        ground arith
  ]

  poll_ckpool-Frame : (polls : Polls F) (r : Round F) → Frame (poll_ckpool polls r).agg r.agg
  unfolding poll_ckpool poll_stats
  poll_ckpool-Frame polls r = ground arith

  poll_chain_lem :
      (now : Time) (info : Reply (BlockchainInfo F)) (nh : Option F) (r : Round F)
      → let a = (poll_chain now info nh r).agg in
        (a.btc_fail_streak ≡ streak_after info r.agg.btc_fail_streak)
        × (a.ckpool_killed ≡ killed_after info r.agg.ckpool_killed)
        × (a.best_diff ≡ r.agg.best_diff)
        × (a.block_submit_attempts ≡ r.agg.block_submit_attempts)
        × (a.block_submits_confirmed ≡ r.agg.block_submits_confirmed)
  unfolding poll_chain
  poll_chain_lem now (answer info) nh r = (refl, refl, refl, refl, refl)
  poll_chain_lem now (failure e) nh r = (refl, refl, refl, refl, refl)

  pub poll_lem :
      (now : Time) (polls : Polls F) (a : Aggregator F)
      → let a' = (poll now polls a).agg in
        (a'.btc_fail_streak ≡ streak_after polls.chain_info a.btc_fail_streak)
        × (a'.ckpool_killed ≡ killed_after polls.chain_info a.ckpool_killed)
        × (a'.best_diff ≡ a.best_diff)
        × (a'.block_submit_attempts ≡ a.block_submit_attempts)
        × (a'.block_submits_confirmed ≡ a.block_submits_confirmed)
  unfolding poll
  poll_lem now polls a =
      let start : Round F = record { agg = a; next = empty_snapshot now } in
      let ck = poll_ckpool polls start in
      let r1 = poll_chain now polls.chain_info polls.network_hash_ps ck in
      let f1 = poll_ckpool-Frame polls start in
      let f2 = poll_chain_lem now polls.chain_info polls.network_hash_ps ck in
      let f3 = retarget-Frame polls (record r1 { next = poll_peers polls.connections r1.next }) in
      (
        f3.streak ∙ f2.0 ∙ ap (streak_after polls.chain_info) f1.streak,
        f3.killed ∙ f2.1 ∙ ap (killed_after polls.chain_info) f1.killed,
        f3.best ∙ f2.2 ∙ f1.best,
        f3.attempts ∙ f2.3 ∙ f1.attempts,
        f3.confirmed ∙ f2.4 ∙ f1.confirmed,
      )
