-- ===== src/Tests/Shares.antt =====
-- Share events at a concrete aggregator.
use kamado_pool.Base.{ℕ, ◌≡◌, refl, true, false, List, [], ◌∷◌, none, some, String, arith}
use kamado_pool.Base.Time.{Time}
use kamado_pool.State.Types.{ShareEvent, PowData, empty_dist}
use kamado_pool.State.Shares.{ingest_shares, bucket_all}
use kamado_pool.State.Shares.Totals.{
  IsTallied, accepted_diffs, rejected_reasons, ingest_shares-IsTallied, ingest_shares-recount,
}
use kamado_pool.State.Shares.Pending.{IsBounded, ingest_shares-IsBounded}
use kamado_pool.State.Shares.Best.{IsRise, Bounds, ingest_shares-best}
use kamado_pool.Tests.Data.{whole, whole-IsOrdered, codec, start}

abbrev pub share : ℕ → String → ShareEvent ℕ
share diff hash = record {
  seen_at = 5;
  diff = diff;
  hash = hash;
  rejected = false;
  reason = "";
  pow = none;
}

abbrev pub pow : PowData ℕ
pow = record {
  sdiff = 3;
  net_diff = 9;
  height = 10;
  hash = "ab";
  header = "";
  coinbase = "";
  cb1_len = 0;
  merkle_branches = [];
  enonce1 = "";
  nonce2 = "";
  workername = "w";
}

-- a PoW record, its share, a rejection, and a share without a hash
abbrev pub events : List (Time × ShareEvent ℕ)
events =
    (1, record (share 0 "") { pow = some pow })
    ∷ (2, share 3 "ab")
    ∷ (3, record (share 4 "") { rejected = true; reason = "stale" })
    ∷ (4, share 5 "")
    ∷ []

ingest_shares-IsTallied_example : IsTallied (ingest_shares codec events start)
ingest_shares-IsTallied_example =
    ingest_shares-IsTallied codec events start (record { session = refl; alltime = refl })

ingest_shares-recount_example :
    ((ingest_shares codec events start).alltime_diff_dist
      ≡ bucket_all (accepted_diffs events) empty_dist)
    × ((ingest_shares codec events start).alltime_reject_reasons ≡ rejected_reasons events [])
ingest_shares-recount_example = ingest_shares-recount codec events start

ingest_shares-IsBounded_example : IsBounded (ingest_shares codec events start)
ingest_shares-IsBounded_example = ingest_shares-IsBounded codec events start (omega arith)

ingest_shares-best_example :
    IsRise whole 0 (ingest_shares codec events start).best_diff
    × Bounds (ingest_shares codec events start).best_diff events
ingest_shares-best_example = ingest_shares-best codec whole-IsOrdered events start
