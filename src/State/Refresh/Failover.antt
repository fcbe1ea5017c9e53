-- ===== src/State/Refresh/Failover.antt =====
-- The rounds of Run: the call of KillCKPool, the high-water mark and the published snapshot.
use kamado_pool.Base.{
  ◌≤◌, ◌≡◌, refl, sym, ap, ◌∙◌, inl, inr, Bool, true, false, not, ◌&&◌, List, [], ◌∷◌, All, String,
  Option, none, some, arith, Bool-cases,
}
use kamado_pool.Base.Word.{Int64, add64, sub64, lt64, le64}
use kamado_pool.Base.Time.{Time}
use kamado_pool.Base.Float.{Float64}
use kamado_pool.State.Types.{Aggregator, Snapshot}
use kamado_pool.State.Codec.{Codec}
use kamado_pool.State.Refresh.{
  failure, Polls, Round, poll, track, attach, publish, failover, refresh, rounds,
}
use kamado_pool.State.Refresh.Rounds.{
  Frame, higher, streak_after, killed_after, track-Frame, raise_best_lem, poll_lem,
}

module _ {F : Type 0} ⦃fl : Float64 F⦄ where
  publish-Frame : (now : Time) (r : Round F) → Frame (publish now r) r.agg
  unfolding publish
  publish-Frame now r = record {
    streak = refl;
    killed = refl;
    best = refl;
    attempts = refl;
    confirmed = refl;
  }

  -- the published snapshot
  publish_lem :
      (now : Time) (r : Round F)
      → let a = publish now r in
        (a.snap.best_diff ≡ r.next.best_diff)
        × (a.snap.block_submit_attempts ≡ r.agg.block_submit_attempts)
        × (a.snap.block_submits_confirmed ≡ r.agg.block_submits_confirmed)
  unfolding publish attach
  publish_lem now r = (refl, refl, refl)

-- whether KillCKPool is called: it is there, the streak is 3 or more, it has not killed ckpool yet,
-- and no more blocks were submitted than confirmed
abbrev pub must_kill : Option Bool → Int64 → Bool → Int64 → Int64 → Bool
must_kill none streak killed attempts confirmed = false
must_kill (some _) streak killed attempts confirmed =
    le64 3 streak && not killed && not (lt64 0 (sub64 attempts confirmed))

module _ {F : Type 0} where
  failover_lem :
      (kill : Option Bool) (a : Aggregator F)
      → a.snap.block_submit_attempts ≡ a.block_submit_attempts
      → a.snap.block_submits_confirmed ≡ a.block_submits_confirmed
      → let r = failover kill a in
        (r.1
          ≡ must_kill kill a.btc_fail_streak a.ckpool_killed a.block_submit_attempts
              a.block_submits_confirmed)
        × (r.0.snap ≡ a.snap)
        × (r.0.best_diff ≡ a.best_diff)
        × (kill ≡ some true → r.1 ≡ true → r.0.ckpool_killed ≡ true)
        × (r.1 ≡ false → r.0.ckpool_killed ≡ a.ckpool_killed)
  unfolding failover
  failover_lem none a h k = ground arith
  failover_lem (some ok) a h k = ground arith

-- What a round does, seen from outside.
pub record Outcome {F : Type 0} ⦃fl : Float64 F⦄ (now : Time) (polls : Polls F)
    (a a' : Aggregator F) (flag : Bool) : Type 0 where
  pub called :
      flag
      ≡ must_kill polls.kill
          (streak_after polls.chain_info a.btc_fail_streak)
          (killed_after polls.chain_info a.ckpool_killed)
          a.block_submit_attempts
          a.block_submits_confirmed
  pub killed : polls.kill ≡ some true → flag ≡ true → a'.ckpool_killed ≡ true
  pub spared : flag ≡ false → a'.ckpool_killed ≡ killed_after polls.chain_info a.ckpool_killed
  pub best : a'.best_diff ≡ higher a.best_diff (poll now polls a).next.best_diff
  pub shown : a'.snap.best_diff ≡ a'.best_diff

module _ {F : Type 0} ⦃fl : Float64 F⦄ (codec : Codec F) where
  pub refresh_lem :
      (now : Time) (polls : Polls F) (a : Aggregator F)
      → let r = refresh codec now polls a in Outcome now polls a r.0 r.1
  unfolding refresh
  refresh_lem now polls a =
      let p = poll now polls a in
      let t = track codec now polls p in
      let b = publish now t in
      let pl = poll_lem now polls a in
      let rl = raise_best_lem codec p in
      let tl = track-Frame codec now polls p in
      let bf = publish-Frame now t in
      let bl = publish_lem now t in
      let fo = failover_lem polls.kill b (bl.1 ∙ sym bf.attempts) (bl.2 ∙ sym bf.confirmed) in
      let attempts = bf.attempts ∙ tl.0.attempts ∙ rl.4 ∙ pl.3 in
      let confirmed = bf.confirmed ∙ tl.0.confirmed ∙ rl.5 ∙ pl.4 in
      let streak = bf.streak ∙ tl.0.streak ∙ rl.2 ∙ pl.0 in
      let killed = bf.killed ∙ tl.0.killed ∙ rl.3 ∙ pl.1 in
      let best = fo.2 ∙ bf.best ∙ tl.0.best in
      record {
        called = fo.0 ∙ (cc);
        killed = fo.3;
        spared = λ h. fo.4 h ∙ killed;
        best = best ∙ rl.0 ∙ ap (λ x. higher x p.next.best_diff) pl.2;
        shown = ap Snapshot.best_diff fo.1 ∙ bl.0 ∙ tl.1 ∙ rl.1 ∙ sym best;
      }

  -- A round calls KillCKPool exactly when the option is set, the failures of getblockchaininfo in a
  -- row, this round's included, are 3 or more, no call has killed ckpool since bitcoind last answered,
  -- and the blocks submitted are not more than the confirmed ones.
  pub refresh-must_kill :
      (now : Time) (polls : Polls F) (a : Aggregator F)
      → (refresh codec now polls a).1
        ≡ must_kill polls.kill
            (streak_after polls.chain_info a.btc_fail_streak)
            (killed_after polls.chain_info a.ckpool_killed)
            a.block_submit_attempts
            a.block_submits_confirmed
  refresh-must_kill now polls a = (refresh_lem now polls a).called

-- bitcoind answers no getblockchaininfo in a round, and a KillCKPool succeeds
abbrev pub IsOutage : {F : Type 0} → Polls F → Type 0
IsOutage polls = (e : String) × (polls.chain_info ≡ failure e) × (polls.kill ≡ some true)

module _ {F : Type 0} ⦃fl : Float64 F⦄ (codec : Codec F) where
  must_kill-killed :
      (kill : Option Bool) (n attempts confirmed : Int64)
      → must_kill kill n true attempts confirmed ≡ false
  must_kill-killed none n x y = refl
  must_kill-killed (some b) n x y = ground arith

  -- a round of an outage after the kill
  pub refresh-killed :
      (now : Time) (polls : Polls F) (a : Aggregator F)
      → IsOutage polls
      → a.ckpool_killed ≡ true
      → ((refresh codec now polls a).1 ≡ false)
        × ((refresh codec now polls a).0.ckpool_killed ≡ true)
  refresh-killed now polls a (e, fails, kill) k =
      let o = refresh_lem codec now polls a in
      let quiet : (refresh codec now polls a).1 ≡ false =
        o.called
        ∙ rw (fails, k)
            (must_kill-killed polls.kill (add64 a.btc_fail_streak 1) a.block_submit_attempts
              a.block_submits_confirmed) in
      (quiet, o.spared quiet ∙ rw fails k)

  -- once ckpool is killed, an outage kills it no more
  rounds-killed :
      (ps : List (Time × Polls F)) (a : Aggregator F)
      → All (λ p. IsOutage p.1) ps
      → a.ckpool_killed ≡ true
      → (rounds codec ps a).1 ≡ 0
  unfolding rounds
  rounds-killed [] a h k = refl
  rounds-killed ((now, polls) ∷ ps) a (o, h) k =
      let (quiet, still) = refresh-killed now polls a o k in
      let ih = rounds-killed ps (refresh codec now polls a).0 h still in rw quiet ih

  -- In an outage of bitcoind, when each call of KillCKPool succeeds, the rounds call it once at most.
  pub rounds-outage :
      (ps : List (Time × Polls F)) (a : Aggregator F)
      → All (λ p. IsOutage p.1) ps
      → (rounds codec ps a).1 ≤ 1
  unfolding rounds
  rounds-outage [] a h = omega arith
  rounds-outage ((now, polls) ∷ ps) a ((e, fails, kill), h) =
      let o = refresh_lem codec now polls a in
      let a' = (refresh codec now polls a).0 in
      elim (Bool-cases (refresh codec now polls a).1) [
        | inl called ↦
            let rest = rounds-killed ps a' h (o.killed kill called) in
            rw (called, rest) (omega arith)
        | inr quiet ↦ rw quiet (rounds-outage ps a' h)
      ]
