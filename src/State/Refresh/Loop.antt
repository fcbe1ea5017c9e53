-- ===== src/State/Refresh/Loop.antt =====
-- api/internal/state/aggregator.go: Run, the loop around refresh.
use kamado_pool.Base.{
  ℕ, ◌+◌, ◌≤◌, ◌≡◌, refl, ◌∙◌, Bool, true, false, List, [], ◌∷◌, if◌then◌else◌, Bool-cases, inl,
  inr, arith, All,
}
use kamado_pool.Base.Time.{Time}
use kamado_pool.Base.Float.{Float64}
use kamado_pool.State.Types.{Aggregator}
use kamado_pool.State.Codec.{Codec}
use kamado_pool.State.Refresh.{Polls, refresh}
use kamado_pool.State.Refresh.Failover.{refresh_lem, refresh-killed, IsOutage}

-- how the wait for ckpool's notifier ends
pub data Notified : Type 0 where
  notified timed_out cancelled : Notified

-- what the `select` of Run takes: the ticker, a tip with the time it was seen, or the end of the
-- channel of tips
pub data Wake : Type 0 where
  tick closed : Wake
  tip : Time → Notified → Wake

-- a refresh comes next, or another `select`, with the channel of tips or without it, or Run returns
pub data Awake (F : Type 0) : Type 0 where
  go : Aggregator F → Awake F
  again : Bool → Aggregator F → Awake F
  stop : Aggregator F → Awake F

module _ {F : Type 0} where
  -- the wait for the notifier, after a tip
  unfoldable pub await : Notified → Aggregator F → Awake F
  await notified a = go (record a { notifier_done = false })
  await timed_out a = go a
  await cancelled a = stop a

  -- a turn of the `select`; no tip comes without a channel
  unfoldable pub awake : Bool → Wake → Aggregator F → Awake F
  unfolding await
  awake tips tick a = go a
  awake tips closed a = again false a
  awake true (tip seen n) a = await n (record a { last_zmq_event_time = seen })
  awake false (tip seen n) a = again false a

module _ {F : Type 0} ⦃fl : Float64 F⦄ (codec : Codec F) where
  -- refresh and what the loop does after it; the number is that of the calls of KillCKPool
  unfoldable pub then_loop :
      (Aggregator F → Aggregator F × ℕ) → Time → Polls F → Aggregator F → Aggregator F × ℕ
  then_loop loop now polls a =
      let (a', called) = refresh codec now polls a in
      let (a'', n) = loop a' in (a'', if called then n + 1 else n)

  unfoldable pub resume :
      (Bool → Aggregator F → Aggregator F × ℕ) → Bool → Time → Polls F → Awake F → Aggregator F × ℕ
  unfolding then_loop
  resume loop tips now polls (go a) = then_loop (loop tips) now polls a
  resume loop tips now polls (again tips' a) = loop tips' a
  resume loop tips now polls (stop a) = (a, 0)

  -- the loop, with or without the channel of tips
  unfoldable pub run_loop : Bool → List (Wake × Time × Polls F) → Aggregator F → Aggregator F × ℕ
  run_loop tips [] a = (a, 0)
  run_loop tips ((w, now, polls) ∷ ws) a =
      resume (λ t b. run_loop t ws b) tips now polls (awake tips w a)

  -- Run; `load` is LoadPersisted, which does nothing after its first call
  unfoldable pub run_aggregator :
      (Aggregator F → Aggregator F)
      → Bool
      → Time × Polls F
      → List (Wake × Time × Polls F)
      → Aggregator F
      → Aggregator F × ℕ
  unfolding then_loop
  run_aggregator load tips (now, polls) ws a =
      then_loop (run_loop tips ws) now polls (load (record a { zmq_enabled = tips }))

module _ {F : Type 0} where
  state_of : Awake F → Aggregator F
  state_of (go a) = a
  state_of (again tips a) = a
  state_of (stop a) = a

  await-killed :
      (n : Notified) (a : Aggregator F) → (state_of (await n a)).ckpool_killed ≡ a.ckpool_killed
  unfolding await state_of
  await-killed notified a = refl
  await-killed timed_out a = refl
  await-killed cancelled a = refl

  awake-killed :
      (tips : Bool) (w : Wake) (a : Aggregator F)
      → (state_of (awake tips w a)).ckpool_killed ≡ a.ckpool_killed
  unfolding awake state_of
  awake-killed tips tick a = refl
  awake-killed tips closed a = refl
  awake-killed true (tip seen n) a = await-killed n (record a { last_zmq_event_time = seen })
  awake-killed false (tip seen n) a = refl

module _ {F : Type 0} ⦃fl : Float64 F⦄ (codec : Codec F) where
  run_loop-killed :
      (tips : Bool) (ws : List (Wake × Time × Polls F)) (a : Aggregator F)
      → All (λ w. IsOutage w.2) ws
      → a.ckpool_killed ≡ true
      → (run_loop codec tips ws a).1 ≡ 0
  unfolding run_loop resume state_of
  run_loop-killed tips [] a h k = refl
  run_loop-killed tips ((w, now, polls) ∷ ws) a (o, h) k =
      let loop = λ (t : Bool) (b : Aggregator F). run_loop codec t ws b in
      elim (awake tips w a)
          as (λ r. (state_of r).ckpool_killed ≡ true → (resume codec loop tips now polls r).1 ≡ 0) [
            | go b ↦ λ kb.
                let r = refresh-killed codec now polls b o kb in
                let ih = run_loop-killed tips ws (refresh codec now polls b).0 h r.1 in rw r.0 ih
            | again tips' b ↦ λ kb. run_loop-killed tips' ws b h kb
            | stop b ↦ λ kb. refl
          ]
        (awake-killed tips w a ∙ k)

  -- a refresh in an outage, and a loop after it
  then_loop-outage :
      (now : Time) (polls : Polls F) (a : Aggregator F) (loop : Aggregator F → Aggregator F × ℕ)
      → IsOutage polls
      → ((b : Aggregator F) → b.ckpool_killed ≡ true → (loop b).1 ≡ 0)
      → ((b : Aggregator F) → (loop b).1 ≤ 1)
      → (then_loop codec loop now polls a).1 ≤ 1
  unfolding then_loop
  then_loop-outage now polls a loop (e, fails, kill) none_left one_left =
      let a' = (refresh codec now polls a).0 in
      elim (Bool-cases (refresh codec now polls a).1) [
        | inl called ↦
            let rest = none_left a' ((refresh_lem codec now polls a).killed kill called) in
            rw (called, rest) (omega arith)
        | inr quiet ↦ rw quiet (one_left a')
      ]

  run_loop-outage :
      (tips : Bool) (ws : List (Wake × Time × Polls F)) (a : Aggregator F)
      → All (λ w. IsOutage w.2) ws
      → (run_loop codec tips ws a).1 ≤ 1
  unfolding run_loop resume
  run_loop-outage tips [] a h = omega arith
  run_loop-outage tips ((w, now, polls) ∷ ws) a (o, h) =
      let loop = λ (t : Bool) (b : Aggregator F). run_loop codec t ws b in
      elim (awake tips w a) as (λ r. (resume codec loop tips now polls r).1 ≤ 1) [
        | go b ↦
            then_loop-outage now polls b (run_loop codec tips ws) o
              (λ c k. run_loop-killed tips ws c h k) (λ c. run_loop-outage tips ws c h)
        | again tips' b ↦ run_loop-outage tips' ws b h
        | stop b ↦ omega arith
      ]

  -- In an outage of bitcoind, when each call of KillCKPool succeeds, Run calls it once at most, from
  -- whatever state it starts, however ticks and tips alternate and whatever ends the waits for the
  -- notifier.
  pub run_aggregator-outage :
      (load : Aggregator F → Aggregator F) (tips : Bool) (first : Time × Polls F)
      (ws : List (Wake × Time × Polls F)) (a : Aggregator F)
      → IsOutage first.1
      → All (λ w. IsOutage w.2) ws
      → (run_aggregator codec load tips first ws a).1 ≤ 1
  unfolding run_aggregator
  run_aggregator-outage load tips (now, polls) ws a o h =
      then_loop-outage now polls (load (record a { zmq_enabled = tips })) (run_loop codec tips ws) o
        (λ b k. run_loop-killed tips ws b h k) (λ b. run_loop-outage tips ws b h)
