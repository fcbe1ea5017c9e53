-- ===== src/Tests/Following.antt =====
-- The tailer's Run at concrete inputs.
use kamado_pool.Base.{
  ℕ, ◌^◌, ◌<◌, ◌≤◌, ◌≡◌, refl, Bool, true, false, List, [], ◌∷◌, ◌++◌, none, some, String, inr,
  arith, length,
}
use kamado_pool.Base.Word.{Int64, lt64}
use kamado_pool.Base.Cut.{size, first, after_first, join}
use kamado_pool.Logmon.{LineCodec}
use kamado_pool.Logmon.Tail.{Tailer, handle_line, handle_lines}
use kamado_pool.Logmon.Follow.{
  buffer_size, cut_line, read_string, Cursors, Opening, opened, following, unopened, Follower, Turn,
  running, ended, close, open_file, first_start, save_cursor, unread_text, read_turn, handle_read,
  is_shut, is_rotated, turn, follow, run,
}
use kamado_pool.Logmon.Follow.Whole.{pending, IsAt}
use kamado_pool.Logmon.Follow.Growing.{joined, handled}
use kamado_pool.Logmon.Follow.Quiet.{IsQuiet}
use kamado_pool.Logmon.Follow.Resume.{follow-caught_up}
use kamado_pool.Logmon.Follow.Restart.{reload, restart-whole}
use kamado_pool.Logmon.Follow.Rotation.{follow-rotated}
use kamado_pool.Tests.Data.{whole}

-- every number is read as 5
abbrev five : LineCodec ℕ
five = record {
  decode_pow = λ t. none;
  parse_float = λ t. some 5;
  parse_int = λ t. some 5;
  parse_stamp = λ t. 0;
}

abbrev no_events : Tailer ℕ
no_events = record { events = []; attempts = []; latencies = []; shares = []; last_solve_diff = 0 }

-- before Run
abbrev fresh : Follower ℕ
fresh = record {
  tailer = no_events;
  handle = unopened;
  buffered = "";
  offset = 0;
  last_ino = 0;
  last_pos = 0;
  first_open = true;
  last_cursor_save = 0;
  saves = [];
}

-- the file 7, opened at its start
abbrev at_start : Follower ℕ
at_start = record fresh { handle = following; last_ino = 7; first_open = false }

abbrev saving : Cursors
saving = record { load = none; is_saving = true }

-- a quiet round on the file 7 with this content, of this length
abbrev quiet_turn : String → Int64 → Turn
quiet_turn content length = record {
  is_cancelled = false;
  now = 10 ^ 9;
  content = content;
  is_failing = false;
  status = some (7, length);
  is_woken = true;
  opening = Opening.no_file;
}

abbrev stop : Turn
stop = record (quiet_turn "a\nb\n" 4) { is_cancelled = true }

at_start-IsAt : (text : String) → IsAt text at_start
unfolding size
at_start-IsAt text = record {
  is_open = refl;
  inside = omega arith;
  known = refl;
  fits = omega arith;
}

quiet :
    (content : String) (length : Int64)
    → size content ≤ length
    → length < 2 ^ 63
    → IsQuiet 7 (quiet_turn content length)
quiet content length long small = record {
  lives = refl;
  reads = refl;
  wakes = refl;
  stays = inr (length, refl, long, small);
}

-- A first file is read from its end, and the text that stands there is not handed on.
skips_old : (open_file saving (opened 7 4 true) fresh).0.offset ≡ 4
unfolding open_file close first_start
skips_old = refl

-- Two rounds hand on a line and an unfinished one.
hands_on :
    handled five saving (quiet_turn "a\nb" 3 ∷ quiet_turn "a\nb" 3 ∷ []) at_start
    ≡ (10 ^ 9, "a\n") ∷ (10 ^ 9, "b") ∷ []
unfolding handled turn handle_read read_turn read_string cut_line unread_text is_shut is_rotated
    size first after_first join save_cursor lt64 open_file handle_line
hands_on = refl

follow-caught_up_example :
    let text : String = "a\n" in
    let ws = quiet_turn text 2 ∷ quiet_turn text 2 ∷ [] in
    (s' : Follower ℕ) × (follow five saving ws at_start ≡ running s')
    × (joined (handled five saving ws at_start) ≡ pending text at_start)
    × (s'.buffered ≡ "")
    × (s'.last_pos ≡ size text)
    × (s'.tailer ≡ handle_lines five (handled five saving ws at_start) no_events)
unfolding size after_first join
follow-caught_up_example =
    let q = quiet "a\n" 2 (omega arith) (omega arith) in
    follow-caught_up five saving "a\n" (quiet_turn "a\n" 2 ∷ quiet_turn "a\n" 2 ∷ []) at_start
      (at_start-IsAt "a\n") ((refl, q), ((refl, q), tt)) (omega arith)

-- The first process stops with "b" and a newline in the buffer; the second one starts behind them.
restart-whole_example :
    let text : String = "a\nb\n" in
    let ws = quiet_turn text 4 ∷ [] in
    let more = quiet_turn "a\nb\nc\n" 6 ∷ [] in
    (skipped : String) × (s' : Follower ℕ) × (s'' : Follower ℕ) × (follow five saving
        (ws ++ stop ∷ [])
        at_start
      ≡ ended s')
    × (let file : List (Opening × Bool) = (opened 7 6 true, true) ∷ [] in
        run five (reload s'.saves) file more fresh ≡ running s'')
    × (let begun = (open_file (reload s'.saves) (opened 7 6 true) fresh).0 in
        join (joined (handled five saving ws at_start)) (
          join skipped
            (join (joined (handled five (reload s'.saves) more begun)) (pending "a\nb\nc\n" s'')))
        ≡ pending "a\nb\nc\n" at_start)
    × (size skipped ≤ buffer_size)
unfolding size join
restart-whole_example =
    let q = quiet "a\nb\n" 4 (omega arith) (omega arith) in
    let q' = quiet "a\nb\nc\n" 6 (omega arith) (omega arith) in
    restart-whole five saving "" "c\n" (quiet_turn "a\nb\n" 4 ∷ []) (quiet_turn "a\nb\nc\n" 6 ∷ [])
      stop at_start fresh true (at_start-IsAt "") (("a\nb\n", refl), q, tt) refl refl refl
      (omega arith) (("", refl), q', tt)

-- a round that finds the file 9 in place of the file 7
abbrev rotating : Turn
rotating = record (quiet_turn "a" 1) { status = some (9, 2); opening = opened 9 2 true }

abbrev on_new_file : Turn
on_new_file = record (quiet_turn "b\n" 2) { status = some (9, 2) }

follow-rotated_example :
    (s' : Follower ℕ) × (follow five saving (rotating ∷ on_new_file ∷ []) at_start ≡ running s')
    × (s'.last_ino ≡ 9)
    × (join (joined (handled five saving (rotating ∷ on_new_file ∷ []) at_start)) (pending "b\n" s')
        ≡ join (pending "a" at_start) "b\n")
unfolding read_turn read_string cut_line unread_text size first after_first join
follow-rotated_example =
    follow-rotated five saving rotating (on_new_file ∷ []) at_start 9 "b\n" (at_start-IsAt "a") refl
      (record { lives = refl; reads = refl; replaced = (2, refl); opens = refl })
      (λ e. absurd (omega (arith, e))) refl
      (
        ("", refl),
        record {
          lives = refl;
          reads = refl;
          wakes = refl;
          stays = inr (2, refl, omega arith, omega arith);
        },
        tt,
      )
