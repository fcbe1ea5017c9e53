-- ===== src/Logmon/Follow/Rotation.antt =====
-- A log that is rotated: the old file is read to its end, and the new one from its beginning.
use Prim.Native.Nat.{ℕ}
use Prim.Native.String.{String}
use mathlib.Core.Path.{subst}
use kamado_pool.Base.{
  ◌≡◌, ◌≢◌, refl, sym, ap, ◌∙◌, Bool, true, false, List, ◌∷◌, Option, some, ==_iff, if◌then◌else◌,
  arith,
}
use kamado_pool.Base.Word.{Int64}
use kamado_pool.Base.Float.{Float64}
use kamado_pool.Base.Time.{Time}
use kamado_pool.Base.Cut.{size, after_first, join, join-nil, join_assoc}
use kamado_pool.Logmon.{LineCodec}
use kamado_pool.Logmon.Follow.{
  Cursors, opened, following, Follower, Turn, running, close, open_file, first_start, save_cursor,
  read_turn, handle_read, is_rotated, is_shut, turn, follow,
}
use kamado_pool.Logmon.Follow.Whole.{pending, IsAt, handle_read-IsHandled}
use kamado_pool.Logmon.Follow.Growing.{
  Grows, last, handled, handled-running, joined, joined-handed, follow-IsFollowed,
}
use kamado_pool.Logmon.Follow.Quiet.{save_cursor-Same}

-- A round that reads the open file to its end and then finds another file, which it opens.
pub record IsRotating (ino : ℕ) (text : String) (w : Turn) : Type 0 where
  pub lives : w.is_cancelled ≡ false
  pub reads : w.is_failing ≡ false
  pub replaced : (length : Int64) × (w.status ≡ some (ino, length))
  pub opens : w.opening ≡ opened ino (size text) true

module _ {F : Type 0} where
  save_cursor-first_open :
      (cs : Cursors) (force : Bool) (now : Time) (s : Follower F)
      → (save_cursor cs force now s).first_open ≡ s.first_open
  unfolding save_cursor
  save_cursor-first_open cs force now s = ground arith

  another_inode :
      (ino : ℕ) (status : Option (ℕ × Int64)) (s : Follower F)
      → ((length : Int64) × (status ≡ some (ino, length)))
      → ino ≢ s.last_ino
      → is_rotated status s ≡ true
  unfolding is_rotated
  another_inode ino status s (length, e) ne =
      rw (e, is_rotated) (ground (arith, ne, ==_iff ino s.last_ino))

  -- a new file after the first one
  opened-IsAt :
      (cs : Cursors) (ino : ℕ) (text : String) (s : Follower F)
      → s.first_open ≡ false
      → let s' = (open_file cs (opened ino (size text) true) s).0 in
        IsAt text s' × (s'.last_ino ≡ ino) × (s'.offset ≡ 0) × (s'.buffered ≡ "")
  unfolding open_file close size
  opened-IsAt cs ino text s e =
      let start : (if s.first_open then first_start cs ino (size text) else 0) ≡ 0 = rw e refl in
      (
        record { is_open = refl; inside = omega (arith, start); known = refl; fits = omega arith },
        refl,
        start,
        refl,
      )

module _ {F : Type 0} ⦃fl : Float64 F⦄ (codec : LineCodec F) (cs : Cursors) where
  handle_read-first_open :
      (w : Turn) (s : Follower F) → (handle_read codec w s).first_open ≡ s.first_open
  unfolding handle_read
  handle_read-first_open w s = ground arith

  turn-rotating :
      (w : Turn) (s : Follower F) (ino : ℕ) (text : String)
      → IsAt w.content s
      → IsRotating ino text w
      → ino ≢ s.last_ino
      → (read_turn w s).1 ≡ false
      → turn codec cs w s
        ≡ running
            (open_file cs
              (opened ino (size text) true)
              (save_cursor cs false w.now (handle_read codec w s))).0
  unfolding turn is_shut
  turn-rotating w s ino text at rot ne over =
      let s' = handle_read codec w s in
      let s'' = save_cursor cs false w.now s' in
      let h = handle_read-IsHandled codec w s at in
      let same : s''.last_ino ≡ s.last_ino =
        (save_cursor-Same cs false w.now s').last_ino ∙ h.same_ino in
      let live = ap (λ x. elim x [ following ↦ false | _ ↦ true ]) at.is_open in
      let moved = another_inode ino w.status s'' rot.replaced (λ e. ne (e ∙ same)) in
      simp (rot.lives, over, rot.reads, live, moved, rot.opens)

  -- When a round has read the open file to its end and finds another file in its place, which it can
  -- open, and that file only grows from then on, the texts that are handed on are what was left of
  -- the old file, whole, and behind it the new file from its first character on.
  pub follow-rotated :
      (w : Turn) (ws : List Turn) (s : Follower F) (ino : ℕ) (text : String)
      → IsAt w.content s
      → s.first_open ≡ false
      → IsRotating ino text w
      → ino ≢ s.last_ino
      → (read_turn w s).1 ≡ false
      → Grows ino text ws
      → (s' : Follower F) × (follow codec cs (w ∷ ws) s ≡ running s')
        × (s'.last_ino ≡ ino)
        × (join (joined (handled codec cs (w ∷ ws) s)) (pending (last text ws) s')
            ≡ join (pending w.content s) (last text ws))
  unfolding join
  follow-rotated w ws s ino text at later rot ne over grows =
      let h = handle_read-IsHandled codec w s at in
      let line = (read_turn w s).0 in
      let e = turn-rotating w s ino text at rot ne over in
      let s₀ = save_cursor cs false w.now (handle_read codec w s) in
      let s₁ = (open_file cs (opened ino (size text) true) s₀).0 in
      let begun = opened-IsAt cs ino text s₀ (
        save_cursor-first_open cs false w.now (handle_read codec w s)
        ∙ handle_read-first_open w s
        ∙ later) in
      let (s', e', found) =
        follow-IsFollowed codec cs text ws s₁ begun.0
          (subst (λ i. Grows i text ws) (sym begun.1) grows) in
      let (lines, same) = handled-running codec cs w ws s s₁ rot.lives e in
      let end = last text ws in
      let fresh : pending end s₁ ≡ end =
        ap (λ b. join b (after_first s₁.offset end)) begun.3
        ∙ ap (λ k. after_first k end) begun.2
        ∙ unfold after_first in refl in
      let all_old : line ≡ pending w.content s =
        sym (join-nil line) ∙ ap (join line) (sym (h.at_end over)) ∙ h.whole in
      (
        s',
        same ∙ e',
        found.same_ino ∙ begun.1,
        ap (λ l. join (joined l) (pending end s')) lines
            ∙ ap (λ t. join t (pending end s')) (joined-handed w.now line (handled codec cs ws s₁))
            ∙ join_assoc line (joined (handled codec cs ws s₁)) (pending end s')
            ∙ ap (join line) (found.whole ∙ fresh)
            ∙ ap (λ t. join t end) all_old,
      )
