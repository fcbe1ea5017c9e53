-- ===== src/Logmon/Follow/Whole.antt =====
-- What Run hands to handleLine while the log grows.
use Prim.Native.Nat.{ℕ, ◌+◌, ◌-◌, ◌≤◌}
use Prim.Native.String.{String}
use mathlib.Core.Path.{subst}
use kamado_pool.Base.{
  ◌≡◌, refl, sym, ap, ◌∙◌, Bool, true, false, Option, none, some, str_eq, eq_iff, Bool-cases, inl,
  inr, arith,
}
use kamado_pool.Base.Word.{Int64}
use kamado_pool.Base.Float.{Float64}
use kamado_pool.Base.Cut.{
  size, after_first, size-after_first, join, join-nil, size-join, after_first-behind,
  after_first_twice,
}
use kamado_pool.Logmon.{LineCodec}
use kamado_pool.Logmon.Follow.{
  buffer_size, cut_line, following, Follower, Turn, unread_text, is_shut, read_turn, handle_read,
}
use kamado_pool.Logmon.Follow.Reads.{
  IsRead, at_newline, at_end, read_string-IsRead, IsLeft, read_string-IsLeft, join-cut_line,
}

-- what is left to handle of a log with this content
abbrev pub pending : {F : Type 0} → String → Follower F → String
pending text s = join s.buffered (after_first s.offset text)

-- Run follows an open log with this content.
pub record IsAt {F : Type 0} (text : String) (s : Follower F) : Type 0 where
  pub is_open : s.handle ≡ following
  pub inside : s.offset ≤ size text
  pub known : s.last_pos ≡ s.offset
  pub fits : size s.buffered ≤ buffer_size

IsRead-whole :
    (t : String) (r : String × Bool × String × String) → IsRead t r → join r.0 (join r.2 r.3) ≡ t
unfolding join
IsRead-whole t _ (at_newline line later rest e) = join-cut_line t line _ e
IsRead-whole t _ (at_end line e _) = join-nil line ∙ e

-- the size of a line, where there is one
line_size : Option (String × String) → ℕ
line_size none = 1
line_size (some (l, r)) = size l

line_size-cut_line : (t : String) → 1 ≤ line_size (cut_line t)
unfolding line_size cut_line size
line_size-cut_line String.[] = omega arith
line_size-cut_line (String.◌∷◌ c t) = ground (arith, line_size-cut_line t)

IsRead-nil : (t : String) (r : String × Bool × String × String) → IsRead t r → r.0 ≡ "" → t ≡ ""
IsRead-nil t _ (at_newline line later rest e) h =
    absurd (unfold line_size size in omega (arith, line_size-cut_line t, ap line_size e, ap size h))
IsRead-nil t _ (at_end line e _) h = sym e ∙ h

IsRead-line :
    (t : String) (r : String × Bool × String × String) → IsRead t r → r.1 ≡ true → 1 ≤ size r.0
unfolding line_size
IsRead-line t _ (at_newline line later rest e) h =
    omega (arith, line_size-cut_line t, ap line_size e)
IsRead-line t _ (at_end line e _) h = absurd (ground (arith, h))

IsRead-end :
    (t : String) (r : String × Bool × String × String)
    → IsRead t r
    → r.1 ≡ false
    → join r.2 r.3 ≡ ""
unfolding join
IsRead-end t _ (at_newline line later rest e) h = absurd (ground (arith, h))
IsRead-end t _ (at_end line e _) h = refl

module _ {F : Type 0} (w : Turn) (s : Follower F) (at : IsAt w.content s) where
  unread_text-following : unread_text w s ≡ after_first s.offset w.content
  unfolding unread_text
  unread_text-following = rw (at.is_open, unread_text) refl

  read_turn-IsRead : IsRead (pending w.content s) (read_turn w s)
  unfolding read_turn join cut_line
  read_turn-IsRead =
      subst (λ u. IsRead (join s.buffered u) (read_turn w s)) unread_text-following
        (read_string-IsRead buffer_size _ "" s.buffered (unread_text w s) (omega arith) refl
          (omega arith))

  read_turn-IsLeft : IsLeft buffer_size (unread_text w s) (read_turn w s)
  unfolding read_turn
  read_turn-IsLeft = read_string-IsLeft buffer_size _ "" s.buffered (unread_text w s) at.fits

  -- the offset after a read
  offset_after : Int64
  offset_after = s.offset + (size (unread_text w s) - size (read_turn w s).3)

  rest-offset_after :
      (after_first offset_after w.content ≡ (read_turn w s).3) × (offset_after ≤ size w.content)
  unfolding offset_after
  rest-offset_after =
      let left = read_turn-IsLeft in
      let rest = (read_turn w s).3 in
      let count : size (unread_text w s) - size rest ≡ size left.taken + 0 =
        omega (arith, ap size left.parts, size-join left.taken rest) in
      let behind : after_first s.offset w.content ≡ join left.taken rest =
        sym unread_text-following ∙ left.parts in
      (
        ap (λ k. after_first (s.offset + k) w.content) count
            ∙ sym (after_first_twice s.offset (size left.taken + 0) w.content)
            ∙ ap (after_first (size left.taken + 0)) behind
            ∙ after_first-behind 0 left.taken rest
            ∙ unfold after_first in refl,
        omega (
          arith,
          count,
          ap size behind,
          size-join left.taken rest,
          size-after_first s.offset w.content,
          at.inside,
        ),
      )

-- what a read makes of Run's variables
pub record IsHandled {F : Type 0} (w : Turn) (s s' : Follower F) : Type 0 where
  pub at : IsAt w.content s'
  pub same_ino : s'.last_ino ≡ s.last_ino
  pub whole : join (read_turn w s).0 (pending w.content s') ≡ pending w.content s
  pub at_end : (read_turn w s).1 ≡ false → pending w.content s' ≡ ""
  pub advances : (read_turn w s).1 ≡ true → 1 ≤ size (read_turn w s).0

module _ {F : Type 0} (w : Turn) (s : Follower F) (at : IsAt w.content s) where
  IsHandled-fields :
      (s' : Follower F)
      → s'.handle ≡ following
      → s'.last_ino ≡ s.last_ino
      → s'.buffered ≡ (read_turn w s).2
      → s'.offset ≡ offset_after w s at
      → s'.last_pos ≡ offset_after w s at
      → IsHandled w s s'
  IsHandled-fields s' open_still same_ino buffered offset pos =
      let (behind, inside) = rest-offset_after w s at in
      let r = read_turn w s in
      let left : pending w.content s' ≡ join r.2 r.3 =
        ap (λ b. join b (after_first s'.offset w.content)) buffered
        ∙ ap (join r.2) (ap (λ k. after_first k w.content) offset ∙ behind) in
      record {
        at = record {
          is_open = open_still;
          inside = omega (arith, offset, inside);
          known = pos ∙ sym offset;
          fits = omega (arith, ap size buffered, (read_turn-IsLeft w s at).fits);
        };
        same_ino = same_ino;
        whole = ap (join r.0) left ∙ IsRead-whole _ r (read_turn-IsRead w s at);
        at_end = λ h. left ∙ IsRead-end _ r (read_turn-IsRead w s at) h;
        advances = λ h. IsRead-line _ r (read_turn-IsRead w s at) h;
      }

  nothing_read : (read_turn w s).0 ≡ "" → offset_after w s at ≡ s.offset
  unfolding offset_after size
  nothing_read h =
      let none_left : size (pending w.content s) ≡ 0 =
        ap size (IsRead-nil _ (read_turn w s) (read_turn-IsRead w s at) h) in
      omega (
        arith,
        none_left,
        ap size (unread_text-following w s at),
        size-join s.buffered (after_first s.offset w.content),
      )

module _ {F : Type 0} ⦃fl : Float64 F⦄ (codec : LineCodec F) where
  pub handle_read-IsHandled :
      (w : Turn) (s : Follower F) → IsAt w.content s → IsHandled w s (handle_read codec w s)
  unfolding handle_read is_shut offset_after
  handle_read-IsHandled w s at = elim (Bool-cases (str_eq (read_turn w s).0 "")) [
    | inl e ↦
        rw (e, handle_read)
          (IsHandled-fields w s at _ at.is_open refl refl refl
            (at.known ∙ sym (nothing_read w s at ((eq_iff _ "").0 e))))
    | inr e ↦
        rw (e, handle_read)
          (IsHandled-fields w s at _ at.is_open refl refl refl (rw (at.is_open, is_shut) refl))
  ]
