-- ===== src/State/Codec.antt =====
-- strconv and encoding/json, as far as the aggregator uses them for the key-value table.
use kamado_pool.Base.{List, Option, String}
use kamado_pool.Base.Word.{Int64}
use kamado_pool.State.Types.{BestSharePow, DiffDist}

-- the struct distPersist
pub record DistPersist (F : Type 0) : Type 0 where
  pub buckets : DiffDist
  pub count : Int64
  pub sum : F

-- A parser's `none` is its error.
pub record Codec (F : Type 0) : Type 0 where
  pub format_float : F → String
  pub parse_float : String → Option F
  pub format_int : Int64 → String
  pub parse_int : String → Option Int64
  pub marshal_pow : BestSharePow F → Option String
  pub unmarshal_pow : String → Option (BestSharePow F)
  pub marshal_reasons : List (String × Int64) → Option String
  pub unmarshal_reasons : String → Option (List (String × Int64))
  pub marshal_dist : DistPersist F → Option String
  pub unmarshal_dist : String → Option (DistPersist F)
