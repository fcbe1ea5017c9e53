-- ===== src/Logmon/Follow/Resume.antt =====
-- Run comes to the end of the log, and a new Run goes on where the last one stopped.
use Prim.Native.Nat.{ℕ, ◌-◌, ◌≤◌}
use Prim.Native.String.{String}
use mathlib.Core.Path.{subst}
use kamado_pool.Base.{
  ◌≡◌, refl, sym, ap, ◌∙◌, List, [], ◌∷◌, inl, inr, Bool-cases, arith, length, All,
}
use kamado_pool.Base.Float.{Float64}
use kamado_pool.Base.Cut.{size, after_first, join, join-nil, size-join, size-after_first}
use kamado_pool.Logmon.{LineCodec}
use kamado_pool.Logmon.Tail.{handle_lines}
use kamado_pool.Logmon.Follow.{Cursors, Follower, Turn, running, read_turn, follow}
use kamado_pool.Logmon.Follow.Whole.{pending, IsAt}
use kamado_pool.Logmon.Follow.Events.{state_of, follow-handle_lines}
use kamado_pool.Logmon.Follow.Growing.{
  Grows, last, handled, handled-running, joined, follow-IsFollowed,
}
use kamado_pool.Logmon.Follow.Quiet.{IsQuiet, turn-IsHandled}

-- Every round is quiet, and the log does not grow any more.
abbrev pub Rests : ℕ → String → List Turn → Type 0
Rests ino text = All (λ w. (w.content ≡ text) × IsQuiet ino w)

Rests-Grows : (ino : ℕ) (text : String) (ws : List Turn) → Rests ino text ws → Grows ino text ws
Rests-Grows ino text [] h = tt
Rests-Grows ino text (w ∷ ws) ((e, quiet), h) = (
  ("", e ∙ sym (join-nil text)),
  quiet,
  Rests-Grows ino w.content ws (subst (λ t. Rests ino t ws) (sym e) h),
)

last-Rests : (ino : ℕ) (text : String) (ws : List Turn) → Rests ino text ws → last text ws ≡ text
last-Rests ino text [] h = refl
last-Rests ino text (w ∷ ws) ((e, quiet), h) =
    last-Rests ino w.content ws (subst (λ t. Rests ino t ws) (sym e) h) ∙ e

size-nil : size "" ≡ 0
unfolding size
size-nil = refl

nil_of_size : (s : String) → size s ≤ 0 → s ≡ ""
unfolding size
nil_of_size String.[] h = refl
nil_of_size (String.◌∷◌ c s) h = absurd (omega (arith, h))

module _ {F : Type 0} ⦃fl : Float64 F⦄ (codec : LineCodec F) (cs : Cursors) where
  follow-nil : (s : Follower F) → follow codec cs [] s ≡ running s
  unfolding follow
  follow-nil s = refl

  -- every round handles a character or more, as long as one is left
  Rests-advance :
      (text : String) (ws : List Turn) (s s' : Follower F)
      → IsAt text s
      → Rests s.last_ino text ws
      → follow codec cs ws s ≡ running s'
      → size (pending text s') ≤ size (pending text s) - length ws
  Rests-advance text [] s s' at rests e =
      omega (arith, ap (λ p. size (pending text (state_of p))) (sym (follow-nil s) ∙ e))
  Rests-advance text (w ∷ ws) s s' at ((same, quiet), rests) e =
      let at' = subst (λ t. IsAt t s) (sym same) at in
      let (s₁, one, h) = turn-IsHandled codec cs w s at' quiet in
      let later =
        Rests-advance text ws s₁ s' (subst (λ t. IsAt t s₁) same h.at)
          (subst (λ ino. Rests ino text ws) (sym h.same_ino) rests)
          (sym (handled-running codec cs w ws s s₁ quiet.lives one).1 ∙ e) in
      let line = size-join (read_turn w s).0 (pending w.content s₁) in
      let left = ap (λ t. size (pending t s₁)) same in
      let before = ap (λ t. size (pending t s)) same in
      elim (Bool-cases (read_turn w s).1) [
        | inl found ↦ omega (arith, later, line, ap size h.whole, h.advances found, left, before)
        | inr over ↦ omega (arith, later, ap size (h.at_end over), size-nil, left)
      ]

  -- On a log that does not grow any more, as many quiet rounds as it has characters left to handle
  -- hand all of these on, and put the cursor at its end with nothing buffered; what the tailer has
  -- sent is what handleLine sends for these texts.
  pub follow-caught_up :
      (text : String) (ws : List Turn) (s : Follower F)
      → IsAt text s
      → Rests s.last_ino text ws
      → size (pending text s) ≤ length ws
      → (s' : Follower F) × (follow codec cs ws s ≡ running s')
        × (joined (handled codec cs ws s) ≡ pending text s)
        × (s'.buffered ≡ "")
        × (s'.last_pos ≡ size text)
        × (s'.tailer ≡ handle_lines codec (handled codec cs ws s) s.tailer)
  follow-caught_up text ws s at rests enough =
      let (s', e, found) =
        follow-IsFollowed codec cs text ws s at (Rests-Grows s.last_ino text ws rests) in
      let few = Rests-advance text ws s s' at rests e in
      let same = last-Rests s.last_ino text ws rests in
      let at' = subst (λ t. IsAt t s') same found.at in
      let none_left : size (pending text s') ≡ 0 = omega (arith, few, enough) in
      let parts = size-join s'.buffered (after_first s'.offset text) in
      (
        s',
        e,
        sym (join-nil (joined (handled codec cs ws s)))
            ∙ ap (join (joined (handled codec cs ws s)))
                (sym (nil_of_size (pending text s') (omega (arith, none_left))))
            ∙ subst (λ t. join (joined (handled codec cs ws s)) (pending t s') ≡ pending t s) same
                found.whole,
        nil_of_size s'.buffered (omega (arith, none_left, parts)),
        omega (arith, none_left, parts, size-after_first s'.offset text, at'.inside, at'.known),
        ap (λ p. (state_of p).tailer) (sym e) ∙ follow-handle_lines codec cs ws s,
      )
