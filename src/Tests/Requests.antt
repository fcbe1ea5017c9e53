-- ===== src/Tests/Requests.antt =====
-- A request of another origin.
use kamado_pool.Base.{
  false, ◌⊎◌, ◌↔◌, ◌≤◌, arith, ℕ, ◌≡◌, refl, true, [], none, some, str_eq, if◌then◌else◌,
}
use kamado_pool.Base.Text.{equal_fold, lower}
use kamado_pool.HttpApi.Requests.{Server, Request, Io, Health, health_report, found, origin_allowed}
use kamado_pool.HttpApi.Routes.{serve}
use kamado_pool.HttpApi.Routes.Origin.{serve-cross_origin}
use kamado_pool.HttpApi.Handlers.{health}
use kamado_pool.HttpApi.Routes.Alarm.{is_silent, health_lem}
use kamado_pool.HttpApi.Routes.Boosts.{IsBoostRequest, serve-boost}
use kamado_pool.State.Refresh.{empty_snapshot}
use kamado_pool.Tests.Data.{whole, codec, start}

abbrev server : Server ℕ
server = record { agg = record start { latency_count = 3 }; acc = none; clients = [] }

abbrev foreign : Request
foreign = record {
  verb = "POST";
  path = "/api/admin/reset-latency";
  host = "pool.local";
  origin = "https://evil.example";
  upgrade = "";
  connection = "";
  ws_version = "";
  ws_key = "";
  body = "";
}

abbrev io : Io ℕ
io = record {
  origin_host = λ o. if str_eq o "https://evil.example" then some "evil.example" else none;
  decode_boost = λ b. none;
  decode_cancel = λ b. none;
  scan = λ p. none;
  ui_stat = λ p. found;
  encodes = λ s. true;
  hijacks = true;
  shakes_hands = true;
}

serve-cross_origin_example : (serve codec io 9 foreign server).0 ≡ server
unfolding origin_allowed equal_fold lower
serve-cross_origin_example = serve-cross_origin codec io 9 foreign server refl

-- a request for a boost, from the dashboard itself
abbrev asked : Request
asked = record foreign { path = "/api/accelerate"; origin = "" }

serve-boost_example : ((serve codec io 9 asked server).0.acc ≡ none) ⊎ IsBoostRequest io asked
serve-boost_example = serve-boost codec io 9 asked server

health_lem_example :
    let snap = server.agg.snap in
    (h : Health ℕ) × ((health server).body ≡ health_report h)
    × (h.submit_gap ≡ 0)
    × ((h.ok ≡ true) ↔ (
        (snap.ckpool_ok ≡ true)
        × (snap.bitcoin_ok ≡ true)
        × (snap.block_submit_attempts ≤ snap.block_submits_confirmed)
        × (is_silent snap ≡ false)))
    × (((health server).status ≡ 200) ↔ ((snap.ckpool_ok ≡ true) × (snap.bitcoin_ok ≡ true)))
unfolding empty_snapshot
health_lem_example = health_lem server (omega arith) (omega arith)
