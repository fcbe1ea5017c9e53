-- ===== src/Logmon/Follow/Growing.antt =====
-- The rounds of Run while the log only grows.
use Prim.Native.Nat.{ℕ, ◌≤◌}
use Prim.Native.String.{String}
use mathlib.Core.Path.{subst}
use kamado_pool.Base.{
  ◌≡◌, refl, sym, ap, ◌∙◌, false, List, [], ◌∷◌, ◌++◌, inl, inr, if◌then◌else◌, str_eq, eq_iff,
  Bool-cases, arith,
}
use kamado_pool.Base.Time.{Time}
use kamado_pool.Base.Float.{Float64}
use kamado_pool.Base.Cut.{
  size, after_first, join, join-nil, join_assoc, size-join, after_first-join,
}
use kamado_pool.Logmon.{LineCodec}
use kamado_pool.Logmon.Follow.{Cursors, Follower, Turn, running, read_turn, turn, follow}
use kamado_pool.Logmon.Follow.Quiet.{IsQuiet, turn-IsHandled}
use kamado_pool.Logmon.Follow.Whole.{pending, IsAt}

-- what ReadString hands to handleLine in a round
abbrev pub handed : Time → String → List (Time × String)
handed now line = if str_eq line "" then [] else (now, line) ∷ []

-- the texts in a row
pub joined : List (Time × String) → String
joined [] = ""
joined ((now, line) ∷ lines) = join line (joined lines)

module _ {F : Type 0} ⦃fl : Float64 F⦄ (codec : LineCodec F) (cs : Cursors) where
  -- what the rounds hand to handleLine, with the times
  unfoldable pub handled : List Turn → Follower F → List (Time × String)
  handled [] s = []
  handled (w ∷ ws) s =
      let later : List (Time × String) = elim (turn codec cs w s) [
        | running s' ↦ handled ws s'
        | _ ↦ []
      ] in
      if w.is_cancelled then [] else handed w.now (read_turn w s).0 ++ later

pub joined-handed :
    (now : Time) (line : String) (lines : List (Time × String))
    → joined (handed now line ++ lines) ≡ join line (joined lines)
unfolding joined join
joined-handed now line lines = elim (Bool-cases (str_eq line "")) [
  | inl e ↦ rw e (ap (λ l. join l (joined lines)) (sym ((eq_iff line "").0 e)))
  | inr e ↦ rw e refl
]

-- what the log contains at last
abbrev pub last : String → List Turn → String
last text [] = text
last text (w ∷ ws) = last w.content ws

-- Every round is quiet, and the log only grows.
abbrev pub Grows : ℕ → String → List Turn → Type 0
Grows ino text [] = Unit {0}
Grows ino text (w ∷ ws) =
    ((new : String) × (w.content ≡ join text new)) × IsQuiet ino w × Grows ino w.content ws

pub last-Grows :
    (ino : ℕ) (text : String) (ws : List Turn)
    → Grows ino text ws
    → (new : String) × (last text ws ≡ join text new)
last-Grows ino text [] g = ("", sym (join-nil text))
last-Grows ino text (w ∷ ws) ((new, e), _, g) =
    let (more, f) = last-Grows ino w.content ws g in
    (join new more, f ∙ ap (λ t. join t more) e ∙ join_assoc text new more)

module _ {F : Type 0} where
  pending-join :
      (text new : String) (s : Follower F)
      → s.offset ≤ size text
      → pending (join text new) s ≡ join (pending text s) new
  pending-join text new s h =
      ap (join s.buffered) (after_first-join s.offset text new h)
      ∙ sym (join_assoc s.buffered (after_first s.offset text) new)

  IsAt-grown :
      (text content : String) (s : Follower F)
      → (new : String) × (content ≡ join text new)
      → IsAt text s
      → IsAt content s
  IsAt-grown text content s (new, e) at = record {
    is_open = at.is_open;
    inside = omega (arith, at.inside, ap size e, size-join text new);
    known = at.known;
    fits = at.fits;
  }

  -- what was handed on, seen from what the log contains later
  pub pending-grown :
      (line text text' : String) (s s' : Follower F)
      → (new : String) × (text' ≡ join text new)
      → s.offset ≤ size text
      → s'.offset ≤ size text
      → join line (pending text s') ≡ pending text s
      → join line (pending text' s') ≡ pending text' s
  pending-grown line text text' s s' (new, e) inside inside' h =
      ap (λ t. join line (pending t s')) e
      ∙ ap (join line) (pending-join text new s' inside')
      ∙ sym (join_assoc line (pending text s') new)
      ∙ ap (λ t. join t new) h
      ∙ sym (pending-join text new s inside)
      ∙ ap (λ t. pending t s) (sym e)

-- how the rounds end, from `s`, on a log that contains `text` at last
pub record IsFollowed {F : Type 0} (text : String) (s s' : Follower F)
    (lines : List (Time × String)) : Type 0 where
  pub at : IsAt text s'
  pub same_ino : s'.last_ino ≡ s.last_ino
  pub whole : join (joined lines) (pending text s') ≡ pending text s

module _ {F : Type 0} ⦃fl : Float64 F⦄ (codec : LineCodec F) (cs : Cursors) where
  pub handled-running :
      (w : Turn) (ws : List Turn) (s s' : Follower F)
      → w.is_cancelled ≡ false
      → turn codec cs w s ≡ running s'
      → (handled codec cs (w ∷ ws) s ≡ handed w.now (read_turn w s).0 ++ handled codec cs ws s')
        × (follow codec cs (w ∷ ws) s ≡ follow codec cs ws s')
  unfolding handled follow
  handled-running w ws s s' live e = (simp (live, e), rw (follow, e) refl)

  pub follow-IsFollowed :
      (text : String) (ws : List Turn) (s : Follower F)
      → IsAt text s
      → Grows s.last_ino text ws
      → (s' : Follower F) × (follow codec cs ws s ≡ running s')
        × IsFollowed (last text ws) s s' (handled codec cs ws s)
  follow-IsFollowed text [] s at g = (
    s,
    unfold follow in refl,
    record { at = at; same_ino = refl; whole = unfold handled joined join in refl },
  )
  follow-IsFollowed text (w ∷ ws) s at (grown, quiet, g) =
      let at' = IsAt-grown text w.content s grown at in
      let (s', e, h) = turn-IsHandled codec cs w s at' quiet in
      let (s'', e', rest) =
        follow-IsFollowed w.content ws s' h.at
          (subst (λ ino. Grows ino w.content ws) (sym h.same_ino) g) in
      let (lines, same) = handled-running w ws s s' quiet.lives e in
      (
        s'',
        same ∙ e',
        record {
          at = rest.at;
          same_ino = rest.same_ino ∙ h.same_ino;
          whole =
              ap (λ l. join (joined l) (pending (last w.content ws) s'')) lines
              ∙ ap (λ t. join t (pending (last w.content ws) s''))
                  (joined-handed w.now (read_turn w s).0 (handled codec cs ws s'))
              ∙ join_assoc (read_turn w s).0 (joined (handled codec cs ws s')) _
              ∙ ap (join (read_turn w s).0) rest.whole
              ∙ pending-grown (read_turn w s).0 w.content (last w.content ws) s s'
                  (last-Grows s.last_ino w.content ws g) at'.inside h.at.inside h.whole;
        },
      )
