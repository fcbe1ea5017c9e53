-- ===== src/Logmon/Follow.antt =====
-- api/internal/logmon/tailer.go: Run, which opens, follows and reopens the log. What the operating
-- system and the context answer in a round of the loop is a `Turn`.
use Prim.Native.Char.{code}
use Prim.Native.Nat.{ℕ, zero, suc, ◌+◌, ◌-◌, ◌*◌}
use Prim.Native.String.{String}
use kamado_pool.Base.{
  ◌≡◌, refl, Bool, true, false, not, ◌&&◌, ◌||◌, List, [], ◌∷◌, Option, none, some, ltb, leb, ◌==◌,
  if◌then◌else◌, str_eq,
}
use kamado_pool.Base.Word.{Int64, lt64, le64}
use kamado_pool.Base.Time.{Time, second}
use kamado_pool.Base.Float.{Float64}
use kamado_pool.Base.Cut.{size, first, after_first, join}
use kamado_pool.Logmon.{LineCodec}
use kamado_pool.Logmon.Tail.{Tailer, handle_line}
pub mod Reads
pub mod Whole
pub mod Quiet
pub mod Growing
pub mod Events
pub mod Resume
pub mod Restart
pub mod Rotation

-- bufio.NewReader: the size of its buffer
abbrev pub buffer_size : ℕ
buffer_size = 4096

-- a text up to its first newline, that included, and the rest
unfoldable pub cut_line : String → Option (String × String)
cut_line String.[] = none
cut_line (String.◌∷◌ c s) =
    if code c == 10
    then some (String.◌∷◌ c "", s)
    else elim (cut_line s) [ none ↦ none | some (l, r) ↦ some (String.◌∷◌ c l, r) ]

-- ReadString('\n') of a bufio.Reader with a buffer of n bytes: from the parts that filled the buffer,
-- what is buffered and what the file has behind it to the text, whether a newline ends it, what
-- stays buffered, and what the file has left. The second argument is fuel.
unfoldable pub read_string : ℕ → ℕ → String → String → String → String × Bool × String × String
read_string n zero parts buffered rest = (parts, false, buffered, rest)
read_string n (suc fuel) parts buffered rest = elim (cut_line buffered) [
  | some (line, later) ↦ (join parts line, true, later, rest)
  | none ↦ elim (leb n (size buffered)) [
    | true ↦ read_string n fuel (join parts buffered) "" rest
    | false ↦ elim (str_eq rest "") [
      | true ↦ (join parts buffered, false, "", "")
      | false ↦
          let free = n - size buffered in
          read_string n fuel parts (join buffered (first free rest)) (after_first free rest)
    ]
  ]
]

-- LoadCursor and SaveCursor: what LoadCursor returns, if it is set, and whether SaveCursor is
pub record Cursors : Type 0 where
  pub load : Option (Option (ℕ × Int64))
  pub is_saving : Bool

-- the answers of os.Open, Stat (with inodeOf) and Seek
pub data Opening : Type 0 where
  no_file no_stat : Opening
  opened : ℕ → Int64 → Bool → Opening

-- f: nil, open, or closed by an `open` that failed later
pub data Handle : Type 0 where
  unopened following closed : Handle

-- The variables of Run and of the tailer; `saves` has the calls of SaveCursor, the last one first.
pub record Follower (F : Type 0) : Type 0 where
  pub tailer : Tailer F
  pub handle : Handle
  pub buffered : String
  pub offset : Int64
  pub last_ino : ℕ
  pub last_pos : Int64
  pub first_open : Bool
  pub last_cursor_save : Time
  pub saves : List (ℕ × Int64)

-- A round of the loop: whether the context has ended, the time, all that the open file contains,
-- whether its reads end in an error in place of io.EOF, os.Stat of the path (the inode and the size),
-- whether sleep comes to its end, and what an `open` meets.
pub record Turn : Type 0 where
  pub is_cancelled : Bool
  pub now : Time
  pub content : String
  pub is_failing : Bool
  pub status : Option (ℕ × Int64)
  pub is_woken : Bool
  pub opening : Opening

-- Run before its first file, in its loop, and returned
pub data Progress (F : Type 0) : Type 0 where
  waiting running ended : Follower F → Progress F

-- where to start reading the first file, of this inode and size
unfoldable pub first_start : Cursors → ℕ → Int64 → Int64
first_start cs ino length = elim cs.load [
  | none ↦ length
  | some none ↦ length
  | some (some (saved_ino, saved_off)) ↦
      if saved_ino == ino && le64 saved_off length then saved_off else length
]

module _ {F : Type 0} (cs : Cursors) where
  unfoldable pub close : Follower F → Follower F
  close s = record s { handle = elim s.handle [ unopened ↦ unopened | _ ↦ closed ] }

  -- the closure `open`; the flag is `err == nil`
  unfoldable pub open_file : Opening → Follower F → Follower F × Bool
  unfolding close
  open_file no_file s = (close s, false)
  open_file no_stat s = (close s, false)
  open_file (opened ino length is_sought) s =
      let start : Int64 = if s.first_open then first_start cs ino length else 0 in
      let s' = record (close s) { first_open = false } in
      if is_sought
      then (
        record s' {
          handle = following;
          buffered = "";
          offset = start;
          last_ino = ino;
          last_pos = start;
        },
        true,
      )
      else (s', false)

  -- the closure `saveCursor`
  unfoldable pub save_cursor : Bool → Time → Follower F → Follower F
  save_cursor force now s = if not cs.is_saving then s else elim s.handle [
    | unopened ↦ s
    | _ ↦
        if not force && ltb now (s.last_cursor_save + second)
        then s
        else record s { saves = (s.last_ino, s.last_pos) ∷ s.saves; last_cursor_save = now }
  ]

  -- the first `open`, tried until it succeeds; with each try, whether the sleep after it comes to
  -- its end
  unfoldable pub open_first : List (Opening × Bool) → Follower F → Progress F
  open_first [] s = waiting s
  open_first ((o, is_woken) ∷ os) s =
      let (s', is_open) = open_file o s in
      let again = open_first os s' in
      if is_open then running s' else if is_woken then again else ended s'

module _ {F : Type 0} where
  -- what the open file has behind the offset
  unfoldable pub unread_text : Turn → Follower F → String
  unread_text w s = elim s.handle [ following ↦ after_first s.offset w.content | _ ↦ "" ]

  unfoldable pub is_shut : Follower F → Bool
  is_shut s = elim s.handle [ following ↦ false | _ ↦ true ]

  -- ReadString in a round, with more fuel than its reads take
  unfoldable pub read_turn : Turn → Follower F → String × Bool × String × String
  read_turn w s =
      read_string buffer_size (suc (2 * size (unread_text w s) + size s.buffered)) "" s.buffered
        (unread_text w s)

  -- whether os.Stat shows another file, or less than was read
  unfoldable pub is_rotated : Option (ℕ × Int64) → Follower F → Bool
  is_rotated none s = false
  is_rotated (some (ino, length)) s = not (ino == s.last_ino) || lt64 length s.last_pos

module _ {F : Type 0} ⦃fl : Float64 F⦄ (codec : LineCodec F) where
  -- what ReadString has read goes to handleLine; lastPos is 0 where Seek fails
  unfoldable pub handle_read : Turn → Follower F → Follower F
  unfolding is_shut
  handle_read w s =
      let (line, found, later, rest) = read_turn w s in
      let offset : Int64 = s.offset + (size (unread_text w s) - size rest) in
      let s' = record s { buffered = later; offset = offset } in
      if str_eq line "" then s' else record s' {
        tailer = handle_line codec w.now line s.tailer;
        last_pos = if is_shut s then 0 else offset;
      }

  module _ (cs : Cursors) where
    -- a round of the loop
    unfoldable pub turn : Turn → Follower F → Progress F
    unfolding is_shut
    turn w s =
        if w.is_cancelled
        then ended (save_cursor cs true w.now s)
        else (let s' = handle_read w s in
            if (read_turn w s).1
            then running s'
            else if w.is_failing || is_shut s
            then (let s'' = save_cursor cs true w.now s' in
                if w.is_woken then running (open_file cs w.opening s'').0 else ended s'')
            else (let s'' = save_cursor cs false w.now s' in
                if is_rotated w.status s''
                then running (open_file cs w.opening s'').0
                else if w.is_woken
                then running s''
                else ended (save_cursor cs true w.now s'')))

    -- the rounds of the loop
    unfoldable pub follow : List Turn → Follower F → Progress F
    follow [] s = running s
    follow (w ∷ ws) s = elim (turn w s) [ running s' ↦ follow ws s' | p ↦ p ]

    -- Run: the tries of the first `open`, then the rounds
    unfoldable pub run : List (Opening × Bool) → List Turn → Follower F → Progress F
    run tries ws s = elim (open_first cs tries s) [ running s' ↦ follow ws s' | p ↦ p ]
