-- ===== src/Logmon/Follow/Restart.antt =====
-- A tailer that stops, and a new one that starts from its cursor.
use Prim.Native.Nat.{ℕ, ◌^◌, ◌≤◌, ◌<◌}
use Prim.Native.String.{String}
use mathlib.Core.Path.{subst}
use kamado_pool.Base.{
  ◌≡◌, refl, sym, ap, ◌∙◌, Bool, true, List, [], ◌∷◌, ◌++◌, none, some, ==_iff, if◌then◌else◌,
  arith,
}
use kamado_pool.Base.Word.{Int64, le64_small}
use kamado_pool.Base.Float.{Float64}
use kamado_pool.Base.Cut.{size, after_first, join, join_assoc, size-join}
use kamado_pool.Logmon.{LineCodec}
use kamado_pool.Logmon.Follow.{
  buffer_size, Cursors, Opening, opened, following, Follower, Turn, waiting, running, ended, close,
  open_file, open_first, first_start, save_cursor, turn, follow, run,
}
use kamado_pool.Logmon.Follow.Whole.{pending, IsAt}
use kamado_pool.Logmon.Follow.Growing.{
  Grows, last, handled, joined, follow-IsFollowed, pending-grown, last-Grows,
}

-- LoadCursor of a process that starts with what the last one has saved
abbrev pub reload : List (ℕ × Int64) → Cursors
reload [] = record { load = some none; is_saving = true }
reload (c ∷ _) = record { load = some (some c); is_saving = true }

module _ {F : Type 0} ⦃fl : Float64 F⦄ (codec : LineCodec F) (cs : Cursors) where
  follow-append :
      (xs ys : List Turn) (s s' : Follower F)
      → follow codec cs xs s ≡ running s'
      → follow codec cs (xs ++ ys) s ≡ follow codec cs ys s'
  unfolding follow
  follow-append [] ys s s' e = ap (λ p. elim p [ running x ↦ follow codec cs ys x | q ↦ q ]) e
  follow-append (w ∷ xs) ys s s' e =
      elim (turn codec cs w s)
          as (λ p.
            elim p [ running x ↦ follow codec cs xs x | q ↦ q ] ≡ running s'
            → elim p [ running x ↦ follow codec cs (xs ++ ys) x | q ↦ q ] ≡ follow codec cs ys s') [
              | waiting x ↦ λ h. absurd (ground (arith, h))
              | running x ↦ λ h. follow-append xs ys x s' h
              | ended x ↦ λ h. absurd (ground (arith, h))
            ]
        e

  run-opened :
      (o : Opening) (woken : Bool) (ws : List Turn) (s : Follower F)
      → (open_file cs o s).1 ≡ true
      → run codec cs ((o, woken) ∷ []) ws s ≡ follow codec cs ws (open_file cs o s).0
  unfolding run open_first
  run-opened o woken ws s e =
      let opens : open_first cs ((o, woken) ∷ []) s ≡ running (open_file cs o s).0 = simp e in
      rw (run, opens) refl

module _ {F : Type 0} where
  -- the first file, at the saved cursor
  reopened :
      (ino : ℕ) (pos : Int64) (saves : List (ℕ × Int64)) (text : String) (s : Follower F)
      → s.first_open ≡ true
      → pos ≤ size text
      → size text < 2 ^ 63
      → let p = open_file (reload ((ino, pos) ∷ saves)) (opened ino (size text) true) s in
        IsAt text p.0
        × (p.1 ≡ true)
        × (p.0.last_ino ≡ ino)
        × (p.0.offset ≡ pos)
        × (p.0.buffered ≡ "")
  unfolding open_file close first_start
  reopened ino pos saves text s fresh inside small =
      let begin : first_start (reload ((ino, pos) ∷ saves)) ino (size text) ≡ pos =
        ground (arith, le64_small pos (size text), (==_iff ino ino).1 refl) in
      let start : (if s.first_open
            then first_start (reload ((ino, pos) ∷ saves)) ino (size text)
            else 0)
          ≡ pos =
        rw fresh begin in
      (
        record {
          is_open = refl;
          inside = omega (arith, start, inside);
          known = refl;
          fits = unfold size in omega arith;
        },
        refl,
        refl,
        start,
        refl,
      )

module _ {F : Type 0} ⦃fl : Float64 F⦄ (codec : LineCodec F) (cs : Cursors) where
  -- a round after the end of the context
  stopped :
      (w : Turn) (s : Follower F)
      → w.is_cancelled ≡ true
      → cs.is_saving ≡ true
      → s.handle ≡ following
      → (follow codec cs (w ∷ []) s ≡ ended (save_cursor cs true w.now s))
        × ((save_cursor cs true w.now s).saves ≡ (s.last_ino, s.last_pos) ∷ s.saves)
  unfolding follow turn save_cursor
  stopped w s stops saving at =
      let ends : turn codec cs w s ≡ ended (save_cursor cs true w.now s) = simp stops in
      (rw (follow, ends) refl, ground (arith, saving, at))

module _ {F : Type 0} ⦃fl : Float64 F⦄ (codec : LineCodec F) (cs : Cursors) where
  -- A tailer follows a growing log and stops in any round; later, when the log may have grown further,
  -- a new one opens the same file with the cursor that the last one saved, and follows it. The texts
  -- that the two hand on, with what the first one had read ahead between them and what is left to
  -- handle behind them, are the log from where the first one began: nothing is handed on twice, and
  -- what is skipped is what stood in the reader's buffer, 4096 characters at most.
  pub restart-whole :
      (text more : String) (ws ws' : List Turn) (w : Turn) (s fresh : Follower F) (woken : Bool)
      → IsAt text s
      → Grows s.last_ino text ws
      → w.is_cancelled ≡ true
      → cs.is_saving ≡ true
      → fresh.first_open ≡ true
      → let text' = join (last text ws) more in
        size text' < 2 ^ 63
        → Grows s.last_ino text' ws'
        → (skipped : String) × (s' : Follower F) × (s'' : Follower F) × (follow codec cs
              (ws ++ w ∷ [])
              s
            ≡ ended s')
          × (let file : List (Opening × Bool) = (opened s.last_ino (size text') true, woken) ∷ [] in
              run codec (reload s'.saves) file ws' fresh ≡ running s'')
          × (let begun =
                (open_file (reload s'.saves) (opened s.last_ino (size text') true) fresh).0 in
              join (joined (handled codec cs ws s)) (
                join skipped (
                  join
                    (joined (handled codec (reload s'.saves) ws' begun))
                    (pending (last text' ws') s'')))
              ≡ pending (last text' ws') s)
          × (size skipped ≤ buffer_size)
  restart-whole text more ws ws' w s fresh woken at grows stops saving new small grows' =
      let text' = join (last text ws) more in
      let (s₀, e, first) = follow-IsFollowed codec cs text ws s at grows in
      let (ends, saved) = stopped codec cs w s₀ stops saving first.at.is_open in
      let s' = save_cursor cs true w.now s₀ in
      let saves : (s.last_ino, s₀.last_pos) ∷ s₀.saves ≡ s'.saves =
        ap (λ ino. (ino, s₀.last_pos) ∷ s₀.saves) (sym first.same_ino) ∙ sym saved in
      let file = opened s.last_ino (size text') true in
      let begun = λ (l : List (ℕ × Int64)). open_file (reload l) file fresh in
      let inside : s₀.last_pos ≤ size text' =
        omega (arith, first.at.known, first.at.inside, size-join (last text ws) more) in
      let again =
        subst
          (λ l.
            IsAt text' (begun l).0
            × ((begun l).1 ≡ true)
            × ((begun l).0.last_ino ≡ s.last_ino)
            × (pending (last text' ws') (begun l).0 ≡ after_first s₀.offset (last text' ws')))
          saves
          (let r = reopened s.last_ino s₀.last_pos s₀.saves text' fresh new inside small in
            (
              r.0,
              r.1,
              r.2,
              ap
                    (λ b. join b (
                      after_first (begun ((s.last_ino, s₀.last_pos) ∷ s₀.saves)).0.offset
                        (last text' ws')))
                    r.4
                  ∙ unfold join in ap (λ k. after_first k (last text' ws')) (r.3 ∙ first.at.known),
            )) in
      let (extra, longer) = last-Grows s.last_ino text' ws' grows' in
      let (grown, longer') = last-Grows s.last_ino text ws grows in
      let (s'', e', second) =
        follow-IsFollowed codec (reload s'.saves) text' ws' (begun s'.saves).0 again.0
          (subst (λ ino. Grows ino text' ws') (sym again.2) grows') in
      (
        s₀.buffered,
        s',
        s'',
        follow-append codec cs ws (w ∷ []) s s₀ e ∙ ends,
        run-opened codec (reload s'.saves) file woken ws' fresh again.1 ∙ e',
        ap (λ t. join (joined (handled codec cs ws s)) (join s₀.buffered t))
              (second.whole ∙ again.3)
            ∙ pending-grown (joined (handled codec cs ws s)) (last text ws) (last text' ws') s s₀
                (join more extra, longer ∙ join_assoc (last text ws) more extra)
                (omega (arith, at.inside, ap size longer', size-join text grown)) first.at.inside
                first.whole,
        first.at.fits,
      )
