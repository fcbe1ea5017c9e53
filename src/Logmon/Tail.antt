-- ===== src/Logmon/Tail.antt =====
-- api/internal/logmon/tailer.go: handleLine, which sends a line's events on the tailer's channels.
use kamado_pool.Base.{
  ℕ, true, false, List, [], ◌∷◌, ◌++◌, none, some, String, ltb, if◌then◌else◌, length,
}
use kamado_pool.Base.Word.{Int64}
use kamado_pool.Base.Time.{Time}
use kamado_pool.Base.Float.{Float64}
use kamado_pool.Base.Text.{contains, trim}
use kamado_pool.Base.Regexp.{find}
use kamado_pool.State.Types.{PowData, ShareEvent, BlockEvent}
use kamado_pool.Logmon.{
  LineCodec, accepted_share_re, rejected_diff_re, rejected_inval_re, latency_re, solve_diff_re,
  solved_re, pow_data_marker, first_group, two_groups, parsed, parse_pow_line, reject_keyword,
}

pub record AttemptEvent (F : Type 0) : Type 0 where
  pub seen_at : Time
  pub share_diff : F
  pub raw_line : String

pub record LatencyEvent : Type 0 where
  pub seen_at : Time
  pub latency_ms : Int64

-- Tailer: what its four channels hold, oldest first, and lastSolveDiff
pub record Tailer (F : Type 0) : Type 0 where
  pub events : List (BlockEvent F)
  pub attempts : List (AttemptEvent F)
  pub latencies : List LatencyEvent
  pub shares : List (ShareEvent F)
  pub last_solve_diff : F

-- a send in a `select` with a default, on a channel of n places
abbrev pub offer : {A : Type 0} → ℕ → A → List A → List A
offer n x xs = if ltb (length xs) n then xs ++ x ∷ [] else xs

module _ {F : Type 0} ⦃fl : Float64 F⦄ where
  abbrev pub send_share : ShareEvent F → Tailer F → Tailer F
  send_share ev t = record t { shares = offer 64 ev t.shares }

  abbrev pub pow_event : Time → PowData F → ShareEvent F
  pow_event now pd = record {
    seen_at = now;
    diff = fl.nought;
    hash = "";
    rejected = false;
    reason = "";
    pow = some pd;
  }

  abbrev pub accepted_event : Time → F → String → ShareEvent F
  accepted_event now d hash = record {
    seen_at = now;
    diff = d;
    hash = hash;
    rejected = false;
    reason = "";
    pow = none;
  }

  abbrev pub rejected_event : Time → String → ShareEvent F
  rejected_event now reason = record {
    seen_at = now;
    diff = fl.nought;
    hash = "";
    rejected = true;
    reason = reason;
    pow = none;
  }

  module _ (codec : LineCodec F) (now : Time) (line : String) where
    -- handleLine: the PoW line
    unfoldable pub handle_pow : Tailer F → Tailer F
    handle_pow t = elim (parse_pow_line codec line) [
      | parsed pd ↦ send_share (pow_event now pd) t
      | _ ↦ t
    ]

    -- handleLine: an accepted share
    unfoldable pub handle_accepted : Tailer F → Tailer F
    handle_accepted t = elim (two_groups (find accepted_share_re line)) [
      | none ↦ t
      | some (diff, hash) ↦ elim (codec.parse_float diff) [
        | none ↦ t
        | some d ↦ send_share (accepted_event now d hash) t
      ]
    ]

    -- handleLine: "Solved and confirmed block"
    unfoldable pub handle_solved : Tailer F → Tailer F
    handle_solved t = elim (first_group (find solved_re line)) [
      | none ↦ t
      | some digits ↦ elim (codec.parse_int digits) [
        | none ↦ t
        | some height ↦ record t {
          last_solve_diff = fl.nought;
          events =
              offer 16
                (record {
                  height = height;
                  seen_at = now;
                  raw_line = line;
                  share_diff = t.last_solve_diff;
                })
                t.events;
        }
      ]
    ]

    -- handleLine: a possible block solve
    unfoldable pub handle_attempt : String → Tailer F → Tailer F
    handle_attempt diff t =
        let parsed_diff = codec.parse_float diff in
        let d : F = elim parsed_diff [ none ↦ fl.nought | some v ↦ v ] in
        record t {
          last_solve_diff = elim parsed_diff [ none ↦ t.last_solve_diff | some v ↦ v ];
          attempts =
              offer 16 (record { seen_at = now; share_diff = d; raw_line = line }) t.attempts;
        }

    -- handleLine: the latency of a block update
    unfoldable pub handle_latency : String → Tailer F → Tailer F
    handle_latency digits t = elim (codec.parse_int digits) [
      | none ↦ t
      | some ms ↦ record t {
        latencies = offer 16 (record { seen_at = now; latency_ms = ms }) t.latencies;
      }
    ]

    -- handleLine: after the accepted share
    unfoldable pub handle_rest : Tailer F → Tailer F
    handle_rest t = elim (first_group (find rejected_diff_re line)) [
      | some kw ↦ send_share (rejected_event now (reject_keyword kw)) t
      | none ↦ elim (first_group (find rejected_inval_re line)) [
        | some reason ↦ send_share (rejected_event now (trim reason)) t
        | none ↦ elim (first_group (find latency_re line)) [
          | some digits ↦ handle_latency digits t
          | none ↦ elim (first_group (find solve_diff_re line)) [
            | some diff ↦ handle_attempt diff t
            | none ↦ handle_solved t
          ]
        ]
      ]
    ]

    unfoldable pub handle_line : Tailer F → Tailer F
    handle_line t =
        if contains line pow_data_marker then handle_pow t else handle_rest (handle_accepted t)

  -- the lines that Run reads, each with the time
  unfoldable pub handle_lines : LineCodec F → List (Time × String) → Tailer F → Tailer F
  handle_lines codec [] t = t
  handle_lines codec ((now, line) ∷ lines) t =
      handle_lines codec lines (handle_line codec now line t)
