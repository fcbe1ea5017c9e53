-- ===== src/Logmon/Follow/Quiet.antt =====
-- A round of Run that only reads.
use Prim.Native.Nat.{ℕ, ◌^◌, ◌≤◌, ◌<◌}
use mathlib.Core.Path.{subst}
use kamado_pool.Base.{
  ◌≡◌, refl, sym, ap, ◌∙◌, Bool, true, false, ◌⊎◌, inl, inr, none, some, Bool-cases, arith, length,
}
use kamado_pool.Base.Word.{Int64, lt64_small}
use kamado_pool.Base.Time.{Time}
use kamado_pool.Base.Float.{Float64}
use kamado_pool.Base.Cut.{size, after_first, join}
use kamado_pool.Logmon.{LineCodec}
use kamado_pool.Logmon.Follow.{
  Cursors, following, Follower, Turn, running, save_cursor, is_shut, read_turn, handle_read,
  is_rotated, turn,
}
use kamado_pool.Logmon.Follow.Whole.{pending, IsAt, IsHandled, handle_read-IsHandled}

-- the variables that saveCursor leaves alone
pub record Same {F : Type 0} (s s' : Follower F) : Type 0 where
  pub tailer : s'.tailer ≡ s.tailer
  pub handle : s'.handle ≡ s.handle
  pub buffered : s'.buffered ≡ s.buffered
  pub offset : s'.offset ≡ s.offset
  pub last_ino : s'.last_ino ≡ s.last_ino
  pub last_pos : s'.last_pos ≡ s.last_pos

pub save_cursor-Same :
    {F : Type 0} (cs : Cursors) (force : Bool) (now : Time) (s : Follower F)
    → Same s (save_cursor cs force now s)
unfolding save_cursor
save_cursor-Same cs force now s = record {
  tailer = ground arith;
  handle = ground arith;
  buffered = ground arith;
  offset = ground arith;
  last_ino = ground arith;
  last_pos = ground arith;
}

-- Nothing but reads in a round: the context lives, no call fails, and os.Stat, where it succeeds,
-- shows the open file, at least as long as what it contained when it was read.
pub record IsQuiet (ino : ℕ) (w : Turn) : Type 0 where
  pub lives : w.is_cancelled ≡ false
  pub reads : w.is_failing ≡ false
  pub wakes : w.is_woken ≡ true
  pub stays :
      (w.status ≡ none)
      ⊎ ((length : Int64) × (w.status ≡ some (ino, length))
          × (size w.content ≤ length)
          × (length < 2 ^ 63))

module _ {F : Type 0} where
  IsHandled-Same :
      {w : Turn} {s s' s'' : Follower F} → Same s' s'' → IsHandled w s s' → IsHandled w s s''
  IsHandled-Same {w} {s} {s'} {s''} same h =
      let left : pending w.content s'' ≡ pending w.content s' =
        ap (λ b. join b (after_first s''.offset w.content)) same.buffered
        ∙ ap (λ k. join s'.buffered (after_first k w.content)) same.offset in
      record {
        at = record {
          is_open = same.handle ∙ h.at.is_open;
          inside = omega (arith, same.offset, h.at.inside);
          known = same.last_pos ∙ h.at.known ∙ sym same.offset;
          fits = omega (arith, ap size same.buffered, h.at.fits);
        };
        same_ino = same.last_ino ∙ h.same_ino;
        whole = ap (join (read_turn w s).0) left ∙ h.whole;
        at_end = λ e. left ∙ h.at_end e;
        advances = h.advances;
      }

  -- a quiet round finds no rotation
  not_rotated :
      (w : Turn) (s : Follower F)
      → IsAt w.content s
      → IsQuiet s.last_ino w
      → is_rotated w.status s ≡ false
  unfolding is_rotated
  not_rotated w s at quiet = elim quiet.stays [
    | inl e ↦ rw (e, is_rotated) refl
    | inr (length, e, long, small) ↦
        rw (e, is_rotated)
          (let pos : s.last_pos ≤ length = omega (arith, at.known, at.inside, long) in
            ground (arith, lt64_small length s.last_pos small (omega (arith, pos, small)), pos))
  ]

module _ {F : Type 0} ⦃fl : Float64 F⦄ (codec : LineCodec F) (cs : Cursors) where
  pub turn-IsHandled :
      (w : Turn) (s : Follower F)
      → IsAt w.content s
      → IsQuiet s.last_ino w
      → (s' : Follower F) × (turn codec cs w s ≡ running s') × IsHandled w s s'
  unfolding turn is_shut
  turn-IsHandled w s at quiet =
      let s' = handle_read codec w s in
      let h = handle_read-IsHandled codec w s at in
      elim (Bool-cases (read_turn w s).1) [
        | inl e ↦ (s', simp (quiet.lives, e), h)
        | inr e ↦
            let h' = IsHandled-Same (save_cursor-Same cs false w.now s') h in
            let live = ap (λ x. elim x [ following ↦ false | _ ↦ true ]) at.is_open in
            let stays =
              not_rotated w (save_cursor cs false w.now s') h'.at
                (subst (λ ino. IsQuiet ino w) (sym h'.same_ino) quiet) in
            (
              save_cursor cs false w.now s',
              simp (quiet.lives, e, quiet.reads, live, stays, quiet.wakes),
              h',
            )
      ]
