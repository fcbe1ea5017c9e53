-- ===== src/HttpApi/Requests.antt =====
-- api/internal/httpapi: the server, its requests and responses, and security.go's same-origin check.
-- encoding/json, url.Parse and the files of the embedded UI are those of an `Io`.
use Prim.Native.Nat.{ℕ, zero, suc}
use Prim.Native.Char.{code}
use Prim.Native.String.{String}
use kamado_pool.Base.{Bool, true, false, List, Option, none, some, str_eq, if◌then◌else◌}
use kamado_pool.Base.Word.{Int64}
use kamado_pool.Base.Regexp.{hex}
use kamado_pool.Base.Text.{equal_fold}
use kamado_pool.Store.Table.{BoostedTx}
use kamado_pool.State.Types.{Aggregator, Snapshot, BlockRecord}
use kamado_pool.State.Shares.{ShareStats, RebuildError}
use kamado_pool.Accelerator.{Service, Failure, AccelerateResult}
use kamado_pool.HttpApi.Hub.{WsClient}

-- Server; `acc` is `none` for a nil accelerator, and `clients` is the hub
pub record Server (F : Type 0) : Type 0 where
  pub agg : Aggregator F
  pub acc : Option (Service F)
  pub clients : List (WsClient (Snapshot F))

-- a request, with the headers that the handlers read
pub record Request : Type 0 where
  pub verb : String
  pub path : String
  pub host : String
  pub origin : String
  pub upgrade : String
  pub connection : String
  pub ws_version : String
  pub ws_key : String
  pub body : String

-- fs.Stat on a file of the UI
pub data Stat : Type 0 where
  found missing stat_failed : Stat

-- What the handlers call: u.Host of url.Parse, the JSON decoders, the scan of the log, the UI's files,
-- whether encoding/json takes a snapshot, and whether the connection can be taken over and the
-- handshake be written.
pub record Io (F : Type 0) : Type 0 where
  pub origin_host : String → Option String
  pub decode_boost : String → Option (String × F)
  pub decode_cancel : String → Option String
  pub scan : String → Option (ShareStats F)
  pub ui_stat : String → Stat
  pub encodes : Snapshot F → Bool
  pub hijacks : Bool
  pub shakes_hands : Bool

pub record Health (F : Type 0) : Type 0 where
  pub ok : Bool
  pub ckpool : Bool
  pub bitcoin : Bool
  pub submit_attempts : Int64
  pub submits_confirmed : Int64
  pub submit_gap : Int64
  pub zmq_enabled : Bool
  pub zmq_event_age : F
  pub zmq_has_event : Bool
  pub zmq_stale : Bool
  pub last_error : String

-- the bodies of the responses that the handlers make, and those that are left to the UI's files
pub data Body (F : Type 0) : Type 0 where
  problem : String → Body F
  failed_with : Failure → Body F
  rebuild_failed : RebuildError → Body F
  done : Body F
  health_report : Health F → Body F
  snapshot_of : Snapshot F → Body F
  rebuild_report : Bool → Int64 → Body F
  boosted : AccelerateResult F → Body F
  max_report : F → Body F
  blocks_list : List (BlockRecord F) → Body F
  debug_list : List (BlockRecord F) → List (BlockRecord F) → Body F
  boosted_list : List (BoostedTx F) → Body F
  -- the fields of a snapshot that the route named here selects
  part : String → Snapshot F → Body F
  file : String → Body F
  switched closed : Body F

pub record Response (F : Type 0) : Type 0 where
  pub status : ℕ
  pub body : Body F

abbrev pub respond : {F : Type 0} → ℕ → Body F → Response F
respond status body = record { status = status; body = body }

-- txidRE
unfoldable pub is_hex : ℕ → String → Bool
is_hex zero String.[] = true
is_hex zero (String.◌∷◌ c s) = false
is_hex (suc n) String.[] = false
is_hex (suc n) (String.◌∷◌ c s) = if hex (code c) then is_hex n s else false

abbrev pub is_txid : String → Bool
is_txid = is_hex 64

module _ {F : Type 0} (io : Io F) where
  unfoldable pub origin_allowed : Request → Bool
  origin_allowed r = if str_eq r.origin "" then true else elim (io.origin_host r.origin) [
    | none ↦ false
    | some host ↦ if str_eq host "" then false else equal_fold host r.host
  ]

  -- sameOrigin
  unfoldable pub same_origin :
      (Request → Server F → Server F × Response F) → Request → Server F → Server F × Response F
  same_origin handler r s =
      if origin_allowed r
      then handler r s
      else (s, respond 403 (problem "cross-origin request refused"))
