-- ===== src/Logmon/Follow/Events.antt =====
-- What Run sends: the events of the texts that it hands to handleLine.
use Prim.Native.String.{String}
use kamado_pool.Base.{
  ◌≡◌, refl, sym, ap, ◌∙◌, true, false, List, [], ◌∷◌, ◌++◌, inl, inr, if◌then◌else◌, Bool-cases,
  arith, length,
}
use kamado_pool.Base.Float.{Float64}
use kamado_pool.Base.Time.{Time}
use kamado_pool.Logmon.{LineCodec}
use kamado_pool.Logmon.Tail.{Tailer, handle_line, handle_lines}
use kamado_pool.Logmon.Follow.{
  Cursors, Opening, Follower, Turn, Progress, waiting, running, ended, close, open_file,
  save_cursor, read_turn, handle_read, turn, follow,
}
use kamado_pool.Logmon.Follow.Growing.{handed, handled}
use kamado_pool.Logmon.Follow.Quiet.{save_cursor-Same}

-- the variables of Run, wherever it is
abbrev pub state_of : {F : Type 0} → Progress F → Follower F
state_of (waiting s) = s
state_of (running s) = s
state_of (ended s) = s

module _ {F : Type 0} where
  open_file-tailer :
      (cs : Cursors) (o : Opening) (s : Follower F) → (open_file cs o s).0.tailer ≡ s.tailer
  unfolding open_file close
  open_file-tailer cs Opening.no_file s = refl
  open_file-tailer cs Opening.no_stat s = refl
  open_file-tailer cs (Opening.opened ino length true) s = refl
  open_file-tailer cs (Opening.opened ino length false) s = refl

module _ {F : Type 0} ⦃fl : Float64 F⦄ (codec : LineCodec F) where
  handle_lines-append :
      (xs ys : List (Time × String)) (t : Tailer F)
      → handle_lines codec (xs ++ ys) t ≡ handle_lines codec ys (handle_lines codec xs t)
  unfolding handle_lines
  handle_lines-append [] ys t = refl
  handle_lines-append ((now, line) ∷ xs) ys t =
      handle_lines-append xs ys (handle_line codec now line t)

  handle_read-tailer :
      (w : Turn) (s : Follower F)
      → (handle_read codec w s).tailer
        ≡ handle_lines codec (handed w.now (read_turn w s).0) s.tailer
  unfolding handle_read handle_lines
  handle_read-tailer w s = ground arith

  module _ (cs : Cursors) where
    turn-tailer :
        (w : Turn) (s : Follower F)
        → w.is_cancelled ≡ false
        → (state_of (turn codec cs w s)).tailer ≡ (handle_read codec w s).tailer
    unfolding turn
    turn-tailer w s live =
        let s' = handle_read codec w s in
        let forced = save_cursor cs true w.now s' in
        let s'' = save_cursor cs false w.now s' in
        ground (
          arith,
          live,
          (save_cursor-Same cs true w.now s').tailer,
          (save_cursor-Same cs false w.now s').tailer,
          (save_cursor-Same cs true w.now s'').tailer,
          open_file-tailer cs w.opening forced,
          open_file-tailer cs w.opening s'',
        )

    -- the rounds after one, and what they hand on
    go_on : List Turn → Progress F → Progress F
    go_on ws (running s) = follow codec cs ws s
    go_on ws p = p

    hand_on : List Turn → Progress F → List (Time × String)
    hand_on ws (running s) = handled codec cs ws s
    hand_on ws _ = []

    go_on-follow :
        (w : Turn) (ws : List Turn) (s : Follower F)
        → follow codec cs (w ∷ ws) s ≡ go_on ws (turn codec cs w s)
    unfolding follow go_on
    go_on-follow w ws s =
        elim (turn codec cs w s)
          as (λ p. elim p [ running s' ↦ follow codec cs ws s' | q ↦ q ] ≡ go_on ws p) [
            | waiting s' ↦ refl
            | running s' ↦ refl
            | ended s' ↦ refl
          ]

    hand_on-handled :
        (w : Turn) (ws : List Turn) (s : Follower F)
        → handled codec cs (w ∷ ws) s ≡ (
            if w.is_cancelled
            then []
            else handed w.now (read_turn w s).0 ++ hand_on ws (turn codec cs w s))
    unfolding handled hand_on
    hand_on-handled w ws s =
        let front = λ (l : List (Time × String)).
          if w.is_cancelled then [] else handed w.now (read_turn w s).0 ++ l in
        elim (turn codec cs w s)
          as (λ p.
            front (elim p [ running s' ↦ handled codec cs ws s' | _ ↦ [] ])
            ≡ front (hand_on ws p)) [ waiting s' ↦ refl | running s' ↦ refl | ended s' ↦ refl ]

    -- a round after the end of the context
    cancelled_tailer :
        (w : Turn) (ws : List Turn) (s : Follower F)
        → w.is_cancelled ≡ true
        → (state_of (follow codec cs (w ∷ ws) s)).tailer
          ≡ handle_lines codec (handled codec cs (w ∷ ws) s) s.tailer
    unfolding turn go_on handle_lines
    cancelled_tailer w ws s e =
        let none_left : handled codec cs (w ∷ ws) s ≡ [] = hand_on-handled w ws s ∙ simp e in
        let stops : turn codec cs w s ≡ ended (save_cursor cs true w.now s) = simp e in
        ap (λ p. (state_of p).tailer) (go_on-follow w ws s ∙ ap (go_on ws) stops)
        ∙ (save_cursor-Same cs true w.now s).tailer
        ∙ ap (λ l. handle_lines codec l s.tailer) (sym none_left)

    -- Whatever happens in the rounds, failing calls and rotations included, what the tailer has sent
    -- is what handleLine sends for the texts that ReadString returned, in their order.
    pub follow-handle_lines :
        (ws : List Turn) (s : Follower F)
        → (state_of (follow codec cs ws s)).tailer
          ≡ handle_lines codec (handled codec cs ws s) s.tailer
    unfolding go_on hand_on
    follow-handle_lines [] s = unfold follow handled handle_lines in refl
    follow-handle_lines (w ∷ ws) s = elim (Bool-cases w.is_cancelled) [
      | inl e ↦ cancelled_tailer w ws s e
      | inr live ↦
          let p = turn codec cs w s in
          let later : (state_of (go_on ws p)).tailer
              ≡ handle_lines codec (hand_on ws p) (state_of p).tailer =
            elim p
              as (λ q.
                (state_of (go_on ws q)).tailer
                ≡ handle_lines codec (hand_on ws q) (state_of q).tailer) [
                  | waiting s' ↦ unfold handle_lines in refl
                  | running s' ↦ follow-handle_lines ws s'
                  | ended s' ↦ unfold handle_lines in refl
                ] in
          ap (λ q. (state_of q).tailer) (go_on-follow w ws s)
          ∙ later
          ∙ ap (handle_lines codec (hand_on ws p)) (turn-tailer w s live ∙ handle_read-tailer w s)
          ∙ sym (handle_lines-append (handed w.now (read_turn w s).0) (hand_on ws p) s.tailer)
          ∙ ap (λ l. handle_lines codec l s.tailer) (sym (hand_on-handled w ws s ∙ simp live))
    ]
