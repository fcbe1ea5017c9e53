-- ===== src/HttpApi/Routes.antt =====
-- api/internal/httpapi/server.go: Handler, the table of the routes.
use Prim.Native.Nat.{ℕ, zero, suc, ◌-◌, ◌^◌}
use Prim.Native.Char.{code}
use Prim.Native.String.{String, ◌++◌ as str_append}
use kamado_pool.Base.{
  ◌⊎◌, inl, inr, Bool, true, false, not, ◌&&◌, ◌||◌, List, [], ◌∷◌, ◌++◌, Option, none, some,
  str_eq, ltb, ◌==◌, if◌then◌else◌, length,
}
use kamado_pool.Base.Word.{Int64, sub64, lt64}
use kamado_pool.Base.Time.{Time}
use kamado_pool.Base.Float.{Float64}
use kamado_pool.Base.Regexp.{hex}
use kamado_pool.Base.Text.{equal_fold, contains_lower, strip_by}
use kamado_pool.Bitcoind.{Result, ok, err, is_rpc_error, rpc_error_message, not_found}
use kamado_pool.Store.Table.{BoostedTx}
use kamado_pool.State.Types.{Aggregator, Snapshot, BlockRecord}
use kamado_pool.State.Codec.{Codec}
use kamado_pool.State.Shares.{
  ShareStats, RebuildError, RebuildResult, rebuilt, refused, rebuild_share_stats,
}
use kamado_pool.State.Blocks.{reset_latency, blocks_of, blocks_from_store}
use kamado_pool.State.Restore.{ack_best_diff, reset_acked_best_diff}
use kamado_pool.Accelerator.{
  Service, Failure, mempool_error, prioritise_error, AccelerateResult, accelerate, cancel,
  max_feerate, list as list_boosts,
}
use kamado_pool.HttpApi.Hub.{WsClient, connected, greeted, run}
use kamado_pool.HttpApi.Requests.{
  Server, Request, Stat, found, missing, stat_failed, Io, Health, Body, problem, failed_with,
  rebuild_failed, done, health_report, snapshot_of, rebuild_report, boosted, max_report,
  blocks_list, debug_list, boosted_list, part, file, switched, Response, respond, is_hex, is_txid,
  origin_allowed, same_origin,
}
use kamado_pool.HttpApi.Handlers.{
  health, spa, is_not_found, handle_accelerate, handle_cancel, handle_max, handle_list,
  handle_rebuild, handle_agg, subscribe, handle_ws, reading,
}
pub mod Origin
pub mod Boosts
pub mod Alarm

module _ {F : Type 0} ⦃fl : Float64 F⦄ (codec : Codec F) (io : Io F) (now : Time) where
  -- the routes of GET, which also take HEAD; `none` is left to the UI
  unfoldable pub get_route : String → Option (Request → Server F → Server F × Response F)
  get_route path =
      if str_eq path "/api/health"
      then some (reading codec io now (λ s. health s))
      else if str_eq path "/api/pool"
      then some (reading codec io now (λ s. respond 200 (part "pool" s.agg.snap)))
      else if str_eq path "/api/users"
      then some (reading codec io now (λ s. respond 200 (part "users" s.agg.snap)))
      else if str_eq path "/api/workers"
      then some (reading codec io now (λ s. respond 200 (part "workers" s.agg.snap)))
      else if str_eq path "/api/clients"
      then some (reading codec io now (λ s. respond 200 (part "clients" s.agg.snap)))
      else if str_eq path "/api/blocks"
      then some (reading codec io now (λ s. respond 200 (blocks_list (blocks_of s.agg))))
      else if str_eq path "/api/snapshot"
      then some (reading codec io now (λ s. respond 200 (snapshot_of s.agg.snap)))
      else if str_eq path "/api/ws"
      then some (same_origin io (handle_ws codec io now))
      else if str_eq path "/api/admin/debug-blocks"
      then some (
          reading codec io now
            (λ s. respond 200 (debug_list (blocks_of s.agg) (blocks_from_store s.agg))))
      else if str_eq path "/api/accelerate/list"
      then some (reading codec io now (λ s. handle_list codec io now s))
      else none

  -- the handlers of POST, without their check
  unfoldable pub post_handler : String → Option (Request → Server F → Server F × Response F)
  post_handler path =
      if str_eq path "/api/admin/reset-latency"
      then some (handle_agg codec io now (reset_latency codec))
      else if str_eq path "/api/admin/ack-best"
      then some (handle_agg codec io now (ack_best_diff codec))
      else if str_eq path "/api/admin/reset-ack-best"
      then some (handle_agg codec io now (reset_acked_best_diff codec))
      else if str_eq path "/api/admin/rebuild-share-stats"
      then some (handle_rebuild codec io now)
      else if str_eq path "/api/accelerate"
      then some (handle_accelerate codec io now)
      else if str_eq path "/api/accelerate/cancel"
      then some (handle_cancel codec io now)
      else if str_eq path "/api/accelerate/max"
      then some (handle_max codec io now)
      else none

  unfoldable pub route : Request → Option (Request → Server F → Server F × Response F)
  route r =
      if str_eq r.verb "GET" || str_eq r.verb "HEAD"
      then get_route r.path
      else if str_eq r.verb "POST"
      then elim (post_handler r.path) [ none ↦ none | some h ↦ some (same_origin io h) ]
      else none

  -- Handler
  unfoldable pub serve : Request → Server F → Server F × Response F
  serve r s = elim (route r) [ none ↦ (s, spa io r.path) | some handler ↦ handler r s ]
