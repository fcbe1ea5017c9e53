-- ===== src/HttpApi/Handlers.antt =====
-- api/internal/httpapi/server.go, accelerate.go and handleWS of ws.go: the handlers. A handler that only
-- reads leaves the server as it is, the list of coming faults included.
use Prim.Native.String.{String, ◌++◌ as str_append}
use kamado_pool.Base.{
  inl, inr, Bool, false, not, ◌&&◌, ◌||◌, [], ◌∷◌, none, some, str_eq, ◌==◌, if◌then◌else◌, length,
}
use kamado_pool.Base.Word.{Int64, sub64, lt64}
use kamado_pool.Base.Time.{Time}
use kamado_pool.Base.Float.{Float64}
use kamado_pool.Base.Text.{equal_fold, contains_lower, strip_by}
use kamado_pool.Bitcoind.{ok, err, is_rpc_error, rpc_error_message, not_found}
use kamado_pool.State.Types.{Aggregator}
use kamado_pool.State.Codec.{Codec}
use kamado_pool.State.Shares.{rebuilt, refused, rebuild_share_stats}
use kamado_pool.Accelerator.{
  Failure, mempool_error, prioritise_error, accelerate, cancel, max_feerate, list as list_boosts,
}
use kamado_pool.HttpApi.Hub.{connected, greeted, run}
use kamado_pool.HttpApi.Requests.{
  Server, Request, found, missing, stat_failed, Io, problem, failed_with, rebuild_failed, done,
  health_report, rebuild_report, boosted, max_report, boosted_list, file, switched, closed,
  Response, respond, is_txid,
}

-- the errors of Accelerate that wrap bitcoind's error -5
unfoldable pub is_not_found : Failure → Bool
is_not_found (mempool_error e) = is_rpc_error e not_found
is_not_found (prioritise_error e) = is_rpc_error e not_found
is_not_found _ = false

module _ {F : Type 0} ⦃fl : Float64 F⦄ where
  unfoldable pub health : Server F → Response F
  health s =
      let snap = s.agg.snap in
      let diff = sub64 snap.block_submit_attempts snap.block_submits_confirmed in
      let gap : Int64 = if lt64 diff 0 then 0 else diff in
      let stale =
        snap.zmq_enabled
        && snap.has_last_zmq_event
        && fl.lt (fl.of_int 1800) snap.last_zmq_event_age in
      respond (if not snap.ckpool_ok || not snap.bitcoin_ok then 503 else 200) (
        health_report (record {
          ok = snap.ckpool_ok && snap.bitcoin_ok && gap == 0 && not stale;
          ckpool = snap.ckpool_ok;
          bitcoin = snap.bitcoin_ok;
          submit_attempts = snap.block_submit_attempts;
          submits_confirmed = snap.block_submits_confirmed;
          submit_gap = gap;
          zmq_enabled = snap.zmq_enabled;
          zmq_event_age = snap.last_zmq_event_age;
          zmq_has_event = snap.has_last_zmq_event;
          zmq_stale = stale;
          last_error = snap.last_error;
        }))

  -- spaHandler
  unfoldable pub spa : Io F → String → Response F
  spa io path = elim (strip_by (λ c. c) "/api/" path) [
    | some _ ↦ respond 404 (problem "404 page not found")
    | none ↦
        if str_eq path "/api"
        then respond 404 (problem "404 page not found")
        else serve_file (trimmed path)
  ]
    where
      trimmed : String → String
      trimmed p = elim (strip_by (λ c. c) "/" p) [ none ↦ p | some rest ↦ rest ]

      or_index : String → String
      or_index clean = if str_eq clean "" then "index.html" else clean

      serve_file : String → Response F
      serve_file clean = elim (io.ui_stat (or_index clean)) [
        | found ↦ respond 200 (file (or_index clean))
        | stat_failed ↦ respond 500 (problem "webui")
        | missing ↦ respond 200 (file "index.html")
      ]

  module _ (codec : Codec F) (io : Io F) (now : Time) where
    -- accelerate
    unfoldable pub handle_accelerate : Request → Server F → Server F × Response F
    handle_accelerate r s = elim s.acc [
      | none ↦ (s, respond 503 (problem "accelerator not available (no store)"))
      | some acc ↦ elim (io.decode_boost r.body) [
        | none ↦ (s, respond 400 (problem "invalid JSON"))
        | some (txid, rate) ↦
            if not (is_txid txid)
            then (s, respond 400 (problem "invalid txid: must be 64 hex characters"))
            else if fl.le rate fl.nought
            then (s, respond 400 (problem "fee_rate_satvb must be positive"))
            else if fl.lt (fl.of_int 2000) rate
            then (s, respond 400 (problem "fee_rate_satvb cannot exceed 2000 sat/vB"))
            else (let (acc', result) = accelerate now txid rate acc in
                (
                  record s { acc = some acc' },
                  elim result [
                    | inl boost ↦ respond 200 (boosted boost)
                    | inr e ↦ respond (if is_not_found e then 404 else 500) (failed_with e)
                  ],
                ))
      ]
    ]

    -- accelerateCancel
    unfoldable pub handle_cancel : Request → Server F → Server F × Response F
    handle_cancel r s = elim s.acc [
      | none ↦ (s, respond 503 (problem "accelerator not available"))
      | some acc ↦ elim (io.decode_cancel r.body) [
        | none ↦ (s, respond 400 (problem "invalid JSON"))
        | some txid ↦
            if not (is_txid txid)
            then (s, respond 400 (problem "invalid txid"))
            else (let (acc', result) = cancel txid acc in
                (
                  record s { acc = some acc' },
                  elim result [ none ↦ respond 200 done | some e ↦ respond 400 (failed_with e) ],
                ))
      ]
    ]

    -- accelerateMax
    unfoldable pub handle_max : Request → Server F → Server F × Response F
    handle_max r s = elim s.acc [
      | none ↦ (s, respond 503 (problem "accelerator not available"))
      | some acc ↦ elim (max_feerate acc) [
        | err e ↦ (s, respond 500 (problem (str_append "getrawmempool: " (rpc_error_message e))))
        | ok rate ↦ (s, respond 200 (max_report rate))
      ]
    ]

    -- accelerateList
    unfoldable pub handle_list : Server F → Response F
    handle_list s = elim s.acc [
      | none ↦ respond 200 (boosted_list [])
      | some acc ↦ elim (list_boosts acc).1 [
        | none ↦ respond 500 (problem "list")
        | some txs ↦ respond 200 (boosted_list txs)
      ]
    ]

    -- rebuildShareStats
    unfoldable pub handle_rebuild : Request → Server F → Server F × Response F
    handle_rebuild r s =
        let (agg, result) = rebuild_share_stats codec io.scan s.agg in
        (
          record s { agg = agg },
          elim result [
            | rebuilt adopted scanned ↦ respond 200 (rebuild_report adopted scanned)
            | refused e ↦ respond 500 (rebuild_failed e)
          ],
        )

    -- resetLatency, ackBest and resetAckBest, by what they do to the aggregator
    unfoldable pub handle_agg :
        (Aggregator F → Aggregator F) → Request → Server F → Server F × Response F
    handle_agg f r s = (record s { agg = f s.agg }, respond 200 done)

    -- handleWS: a new client of the hub, which gets the snapshot
    unfoldable pub subscribe : Server F → Server F
    subscribe s =
        let i = length s.clients in
        elim (run
          (connected ∷ greeted i (if io.encodes s.agg.snap then some s.agg.snap else none) ∷ [])
          s.clients) [ none ↦ s | some clients ↦ record s { clients = clients } ]

    -- handleWS; a status of 0 stands for a connection that is closed without a response
    unfoldable pub handle_ws : Request → Server F → Server F × Response F
    handle_ws r s =
        if not (equal_fold r.upgrade "websocket") || not (contains_lower r.connection "upgrade")
        then (s, respond 400 (problem "expected websocket upgrade"))
        else if not (str_eq r.ws_version "13")
        then (s, respond 426 (problem "unsupported websocket version"))
        else if str_eq r.ws_key ""
        then (s, respond 400 (problem "missing Sec-WebSocket-Key"))
        else if not io.hijacks
        then (s, respond 500 (problem "hijack failed"))
        else if not io.shakes_hands
        then (s, respond 0 closed)
        else (subscribe s, respond 101 switched)

    -- a handler that only reads
    unfoldable pub reading : (Server F → Response F) → Request → Server F → Server F × Response F
    reading f r s = (s, f s)
