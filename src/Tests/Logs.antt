-- ===== src/Tests/Logs.antt =====
-- The log, and the statistics that are saved and loaded, at concrete inputs.
use kamado_pool.Base.{
  ℕ, ◌≡◌, refl, true, false, List, [], ◌∷◌, none, some, String, str_eq, eq_iff, Bool-cases, inl,
  inr, sym, ap, ◌∙◌, ◌==◌, ◌&&◌, if◌then◌else◌, arith,
}
use kamado_pool.Base.Text.{after_by, strip_by, trim_left, trim_right}
use kamado_pool.Base.Regexp.{find, match_any, match_here, greedy, greedy_some}
use kamado_pool.Base.Word.{add64}
use kamado_pool.Base.Dict
use kamado_pool.Store.Table.{find_row}
use kamado_pool.Base.Time.{Time}
use kamado_pool.State.Types.{Aggregator, empty_dist}
use kamado_pool.State.Codec.{Codec, DistPersist}
use kamado_pool.State.Shares.{ingest_shares, bucket_all, ShareStats, persist_share_stats}
use kamado_pool.State.Restore.{load_persisted_state}
use kamado_pool.State.Restore.Guard.{stored, lookup, ingest_shares-unloaded}
use kamado_pool.State.Restore.Reload.{IsFaithful, IsLoaded, load_persisted_state-persist}
use kamado_pool.Logmon.{LineCodec}
use kamado_pool.Logmon.Tail.{Tailer}
use kamado_pool.Logmon.Agreement.{IsPlain}
use kamado_pool.Logmon.Scan.{
  scan_share_stats, stats_lines, stats_line, accepted_share, count_reason,
}
use kamado_pool.Logmon.Lines.{drop_return, scan_lines}
use kamado_pool.Base.Cut.{size, first, join}
use kamado_pool.Logmon.Lines.Split.{last_line, prepend, lines_of, shown, shown_lines}
use kamado_pool.Logmon.Lines.Whole.{scan_lines-lines_of}
use kamado_pool.Logmon.Watch.{watch, log_of, texts, watch-scan_share_stats}
use kamado_pool.Tests.Data.{whole, codec, db, start}
use kamado_pool.Tests.Shares.{events}

-- every number is read as 5
abbrev pub line_codec : LineCodec ℕ
line_codec = record {
  decode_pow = λ t. none;
  parse_float = λ t. some 5;
  parse_int = λ t. some 5;
  parse_stamp = λ t. 0;
}

abbrev tailer : Tailer ℕ
tailer = record { events = []; attempts = []; latencies = []; shares = []; last_solve_diff = 0 }

abbrev accepted_line : String
accepted_line = "Accepted client 1 share diff 5/1/5: ab"

abbrev rejected_line : String
rejected_line = "Rejected client 1 invalid share Stale"

abbrev batches : List (Time × List (Time × String))
batches = (9, (1, accepted_line) ∷ (2, rejected_line) ∷ []) ∷ []

abbrev counted : ShareStats ℕ
counted = record { accepted = 1; diff_sum = 5; diffs = 5 ∷ []; reject_reasons = ("Stale", 1) ∷ [] }

accepted_line-IsPlain : IsPlain accepted_line
unfolding after_by strip_by
accepted_line-IsPlain = record {
  marked_accepted = λ e. ground (arith, e);
  marked_rejected = λ e. ground (arith, e);
  accepted_rejected = λ e. refl;
}

rejected_line-IsPlain : IsPlain rejected_line
unfolding after_by strip_by
rejected_line-IsPlain = record {
  marked_accepted = λ e. ground (arith, e);
  marked_rejected = λ e. ground (arith, e);
  accepted_rejected = λ e. ground (arith, e);
}

found : scan_share_stats line_codec (some (log_of line_codec batches)) ≡ some counted
unfolding scan_share_stats stats_lines stats_line accepted_share count_reason log_of texts find
    match_any match_here greedy greedy_some after_by strip_by trim_left trim_right add64
    Dict.increment Dict.get Dict.put
found = refl

watch-scan_share_stats_example :
    let a = watch line_codec codec batches tailer start in
    (a.alltime_diff_dist ≡ bucket_all {F = ℕ} (5 ∷ []) empty_dist)
    × (a.alltime_reject_reasons ≡ ("Stale", 1) ∷ [])
watch-scan_share_stats_example =
    watch-scan_share_stats line_codec codec batches tailer start counted
      ((omega arith, (accepted_line-IsPlain, (rejected_line-IsPlain, tt))), tt) refl refl refl found

ingest_shares-unloaded_example :
    stored "diff_dist_alltime" (ingest_shares codec events start).store ≡ ""
unfolding stored lookup find_row
ingest_shares-unloaded_example =
    ingest_shares-unloaded codec "diff_dist_alltime"
      (record {
        best_diff = refl;
        best_share_hash = refl;
        best_share_net_diff = refl;
        best_share_pow = refl;
      })
      events start refl

-- one share of difficulty 5
abbrev one_share : DistPersist ℕ
one_share = record { buckets = record empty_dist { b0 = 1 }; count = 1; sum = 5 }

-- reads and writes one map and one histogram
abbrev pub small_codec : Codec ℕ
small_codec = record codec {
  marshal_reasons = λ m. elim m [
    | (k, n) ∷ [] ↦ if str_eq k "Stale" && n == 1 then some "r" else none
    | _ ↦ none
  ];
  unmarshal_reasons = λ t. some (("Stale", 1) ∷ []);
  marshal_dist = λ p.
      if p.buckets.b0 == 1
        && p.buckets.b1 == 0
        && p.buckets.b2 == 0
        && p.buckets.b3 == 0
        && p.buckets.b4 == 0
        && p.buckets.b5 == 0
        && p.count == 1
        && p.sum == 5
      then some "d"
      else none;
  unmarshal_dist = λ t. some one_share;
}

reasons_back :
    (m : List (String × ℕ)) (t : String)
    → small_codec.marshal_reasons m ≡ some t
    → (("Stale", 1) ∷ [] ≡ m) × (str_eq t "" ≡ false)
reasons_back [] t h = ground arith
reasons_back ((k, n) ∷ []) t h = elim (Bool-cases (str_eq k "Stale")) [
  | inl e ↦
      (let same : k ≡ "Stale" = (eq_iff k "Stale").0 e in
        let one : n ≡ 1 = ground arith in
        let text : t ≡ "r" = ground arith in
        (
          ap (λ x. (x, 1) ∷ []) (sym same) ∙ ap (λ x. (k, x) ∷ []) (sym one),
          ap (λ x. str_eq x "") text,
        ))
  | inr e ↦ ground arith
]
reasons_back ((k, n) ∷ (j, i) ∷ m) t h = ground arith

dist_back :
    (p : DistPersist ℕ) (t : String)
    → small_codec.marshal_dist p ≡ some t
    → (one_share ≡ p) × (t ≡ "d")
dist_back p t h = ground arith

pub small_codec-IsFaithful : IsFaithful small_codec
small_codec-IsFaithful = record {
  reasons_back = λ m t h. (("Stale", 1) ∷ [], refl, λ k. ap (Dict.get k) (reasons_back m t h).0);
  dist_back = λ p t h. ap some (dist_back p t h).0;
  reasons_filled = λ m t h. (reasons_back m t h).1;
  dist_filled = λ p t h. ap (λ x. str_eq x "") (dist_back p t h).1;
}

-- an aggregator with one accepted and one rejected share
abbrev saved : Aggregator ℕ
saved = record start {
  stats_loaded = true;
  alltime_diff_dist = one_share.buckets;
  alltime_diff_count = 1;
  alltime_diff_sum = 5;
  alltime_reject_reasons = ("Stale", 1) ∷ [];
}

abbrev restarted : Aggregator ℕ
restarted = record start { store = (persist_share_stats small_codec saved).store }

load_persisted_state-persist_example : IsLoaded small_codec saved (
    load_persisted_state small_codec line_codec
      (λ path. some (log_of line_codec batches))
      9
      restarted)
load_persisted_state-persist_example =
    load_persisted_state-persist small_codec saved small_codec-IsFaithful line_codec
      (λ path. some (log_of line_codec batches)) 9 restarted db "r" "d" refl refl refl refl refl
      refl

scan_lines-lines_of_example :
    scan_lines 4 20 false "abcdefghi\n\nxyz\r\nkl" ≡ "abcd" ∷ "xyz" ∷ "kl" ∷ []
unfolding size lines_of shown_lines shown prepend join last_line first drop_return
scan_lines-lines_of_example =
    scan_lines-lines_of 4 20 "abcdefghi\n\nxyz\r\nkl" (omega arith) (omega arith)
