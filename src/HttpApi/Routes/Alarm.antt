-- ===== src/HttpApi/Routes/Alarm.antt =====
-- When /api/health reports a problem.
use kamado_pool.Base.{
  ◌-◌, ◌^◌, ◌≤◌, ◌<◌, ◌≡◌, ◌↔◌, refl, Bool, true, false, ◌&&◌, arith, if◌then◌else◌,
}
use kamado_pool.Base.Word.{Int64, sub64, lt64}
use kamado_pool.Base.Float.{Float64}
use kamado_pool.State.Types.{Snapshot}
use kamado_pool.HttpApi.Requests.{Server, Health, health_report}
use kamado_pool.HttpApi.Handlers.{health}

-- a socket to bitcoind that has been silent for more than 30 minutes
abbrev pub is_silent : {F : Type 0} ⦃fl : Float64 F⦄ → Snapshot F → Bool
is_silent ⦃fl = fl⦄ snap =
    snap.zmq_enabled && snap.has_last_zmq_event && fl.lt (fl.of_int 1800) snap.last_zmq_event_age

gap_lem :
    (a c : Int64) → a < 2 ^ 63 → c < 2 ^ 63 → (if lt64 (sub64 a c) 0 then 0 else sub64 a c) ≡ a - c
unfolding lt64 sub64
gap_lem a c h k = ground arith

-- Where both counters are below 2^63, /api/health reports the attempts that are not confirmed, none if
-- there are fewer attempts than confirmations; it reports that all is well exactly when ckpool and
-- bitcoind answer, no attempt is unconfirmed and the ZMQ socket is not silent; and its status is 200
-- exactly when ckpool and bitcoind answer.
pub health_lem :
    {F : Type 0} ⦃fl : Float64 F⦄ (s : Server F)
    → let snap = s.agg.snap in
      snap.block_submit_attempts < 2 ^ 63
      → snap.block_submits_confirmed < 2 ^ 63
      → (h : Health F) × ((health s).body ≡ health_report h)
        × (h.submit_gap ≡ snap.block_submit_attempts - snap.block_submits_confirmed)
        × ((h.ok ≡ true) ↔ (
            (snap.ckpool_ok ≡ true)
            × (snap.bitcoin_ok ≡ true)
            × (snap.block_submit_attempts ≤ snap.block_submits_confirmed)
            × (is_silent snap ≡ false)))
        × (((health s).status ≡ 200) ↔ ((snap.ckpool_ok ≡ true) × (snap.bitcoin_ok ≡ true)))
unfolding health
health_lem s small small' =
    let snap = s.agg.snap in
    let gap = gap_lem snap.block_submit_attempts snap.block_submits_confirmed small small' in
    (_, refl, gap, ground arith, ground arith)
