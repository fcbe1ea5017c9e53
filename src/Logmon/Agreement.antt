-- ===== src/Logmon/Agreement.antt =====
-- The tailer's share events against the scan of the same lines.
use mathlib.Core.Path.{subst}
use kamado_pool.Base.{
  ◌≤◌, ◌<◌, ◌≡◌, refl, Bool, true, false, Bool-cases, Option-cases, inl, inr, List, [], ◌∷◌, ◌++◌,
  Option, none, some, String, str_eq, arith, if◌then◌else◌, length, append_nil,
}
use kamado_pool.Base.Time.{Time}
use kamado_pool.Base.Float.{Float64}
use kamado_pool.Base.Text.{equal_fold, after_by, contains, trim}
use kamado_pool.Base.Regexp.{
  Item, lit, match_here, match_any, find, IsFilled, is_empty→not_eq, find-IsFilled,
}
use kamado_pool.State.Types.{ShareEvent}
use kamado_pool.State.Shares.{ShareStats}
use kamado_pool.State.Shares.Totals.{accepted_diffs, rejected_reasons}
use kamado_pool.Logmon.{
  LineCodec, accepted_share_re, rejected_diff_re, rejected_inval_re, pow_data_marker, first_group,
  parsed, parse_pow_line, reject_keyword,
}
use kamado_pool.Logmon.Tail.{
  Tailer, pow_event, accepted_event, rejected_event, handle_pow, handle_accepted, handle_solved,
  handle_attempt, handle_latency, handle_rest, handle_line,
}
use kamado_pool.Logmon.Scan.{accepted_share, count_reason, stats_line}

-- A pattern that begins with a literal is found only in a text that contains it.
find-contains :
    (p : String) (r : List Item) (s : String)
    → contains s p ≡ false
    → find ((lit p ∷ r) ∷ []) s ≡ none
unfolding find match_any match_here after_by
find-contains p r String.[] h = ground arith
find-contains p r (String.◌∷◌ c s) h = ground (arith, find-contains p r s)

filled_group :
    (o : Option (List String)) (t : String)
    → IsFilled o
    → first_group o ≡ some t
    → str_eq t "" ≡ false
filled_group none t h e = ground arith
filled_group (some []) t h e = ground arith
filled_group (some (u ∷ us)) t h e =
    let same : u ≡ t = ground arith in
    subst (λ v. str_eq v "" ≡ false) same (is_empty→not_eq u (unfold IsFilled in h.0))

chosen :
    (dupe high : Bool) (kw : String)
    → str_eq kw "" ≡ false
    → str_eq (if dupe then "Duplicate" else if high then "Above target" else kw) "" ≡ false
chosen true high kw ne = refl
chosen false true kw ne = refl
chosen false false kw ne = ne

-- the keyword of a rejection is never empty
reject_keyword_ne :
    (line kw : String)
    → first_group (find rejected_diff_re line) ≡ some kw
    → str_eq (reject_keyword kw) "" ≡ false
unfolding reject_keyword
reject_keyword_ne line kw e =
    let ne = filled_group _ kw (find-IsFilled rejected_diff_re line) e in
    chosen (equal_fold kw "dupe") (equal_fold kw "high") kw ne

-- A line that is of one kind: not a PoW line or an accepted share, and a rejected one at once.
pub record IsPlain (line : String) : Type 0 where
  pub marked_accepted :
      contains line pow_data_marker ≡ true → contains line "Accepted client" ≡ false
  pub marked_rejected :
      contains line pow_data_marker ≡ true → contains line "Rejected client" ≡ false
  pub accepted_rejected :
      contains line "Accepted client" ≡ true → contains line "Rejected client" ≡ false

-- the events as the aggregator reads them, at one time
unfoldable pub tag : {F : Type 0} → Time → List (ShareEvent F) → List (Time × ShareEvent F)
tag now [] = []
tag now (ev ∷ evs) = (now, ev) ∷ tag now evs

module _ {F : Type 0} ⦃fl : Float64 F⦄ (codec : LineCodec F) (now : Time) (line : String) where
  -- what the line sends on the channel of shares, and what it adds to the scan
  pub record Mirrors (evs : List (ShareEvent F)) : Type 0 where
    pub sent :
        (t : Tailer F)
        → length t.shares < 64
        → (handle_line codec now line t).shares ≡ t.shares ++ evs
    pub few : length evs ≤ 1
    pub diffs :
        (st : ShareStats F) (at : Time)
        → (stats_line codec line st).diffs ≡ st.diffs ++ accepted_diffs (tag at evs)
    pub reasons :
        (st : ShareStats F) (at : Time)
        → (stats_line codec line st).reject_reasons
          ≡ rejected_reasons (tag at evs) st.reject_reasons

  unrejected :
      contains line "Rejected client" ≡ false
      → (find rejected_diff_re line ≡ none) × (find rejected_inval_re line ≡ none)
  unrejected h = (find-contains _ _ line h, find-contains _ _ line h)

  handle_rest-shares :
      (t : Tailer F)
      → contains line "Rejected client" ≡ false
      → (handle_rest codec now line t).shares ≡ t.shares
  unfolding handle_rest handle_latency handle_attempt handle_solved
  handle_rest-shares t h = ground (arith, unrejected h)

  -- a PoW line
  pow_events : List (ShareEvent F)
  pow_events = elim (parse_pow_line codec line) [ parsed pd ↦ pow_event now pd ∷ [] | _ ↦ [] ]

  Mirrors-pow : IsPlain line → contains line pow_data_marker ≡ true → Mirrors pow_events
  unfolding pow_events
  Mirrors-pow plain marked =
      let acc = plain.marked_accepted marked in
      let rej = plain.marked_rejected marked in
      record {
        sent = λ t room. unfold handle_line handle_pow in ground (arith, append_nil t.shares);
        few = ground arith;
        diffs =
            λ st at. unfold stats_line tag accepted_diffs in ground (arith, append_nil st.diffs);
        reasons = λ st at. unfold stats_line tag rejected_reasons in ground arith;
      }

  -- an accepted share
  accepted_events : List (ShareEvent F)
  accepted_events = elim (accepted_share codec line) [
    | none ↦ []
    | some (d, hash) ↦ accepted_event now d hash ∷ []
  ]

  Mirrors-accepted :
      contains line pow_data_marker ≡ false
      → contains line "Accepted client" ≡ true
      → contains line "Rejected client" ≡ false
      → Mirrors accepted_events
  unfolding accepted_events accepted_share
  Mirrors-accepted marked acc rej = record {
    sent = λ t room.
        let quiet = handle_rest-shares (handle_accepted codec now line t) rej in
        unfold handle_line handle_accepted in ground (arith, append_nil t.shares);
    few = ground arith;
    diffs = λ st at. unfold stats_line tag accepted_diffs in ground (arith, append_nil st.diffs);
    reasons = λ st at. unfold stats_line tag rejected_reasons in ground arith;
  }

  -- a rejected share, or any other line
  rejected_events : List (ShareEvent F)
  rejected_events = elim (first_group (find rejected_diff_re line)) [
    | some kw ↦ rejected_event now (reject_keyword kw) ∷ []
    | none ↦ elim (first_group (find rejected_inval_re line)) [
      | some reason ↦ rejected_event now (trim reason) ∷ []
      | none ↦ []
    ]
  ]

  Mirrors-rejected :
      contains line pow_data_marker ≡ false
      → contains line "Accepted client" ≡ false
      → Mirrors rejected_events
  unfolding rejected_events
  Mirrors-rejected marked acc =
      let unaccepted : find accepted_share_re line ≡ none = find-contains _ _ line acc in
      record {
        sent = λ t room.
            unfold handle_line handle_accepted handle_rest handle_latency handle_attempt
              handle_solved in
            ground (arith, unaccepted, append_nil t.shares);
        few = ground arith;
        diffs =
            λ st at. unfold stats_line tag accepted_diffs in ground (arith, append_nil st.diffs);
        reasons = λ st at.
            unfold stats_line tag rejected_reasons count_reason in
            elim (Option-cases (first_group (find rejected_diff_re line))) [
              | inl e ↦ ground (arith, unrejected)
              | inr (kw, e) ↦ (let ne = reject_keyword_ne line kw e in ground (arith, unrejected))
            ];
      }

  pub mirrors : IsPlain line → (evs : List (ShareEvent F)) × Mirrors evs
  mirrors plain = elim (Bool-cases (contains line pow_data_marker)) [
    | inl marked ↦ (pow_events, Mirrors-pow plain marked)
    | inr marked ↦ elim (Bool-cases (contains line "Accepted client")) [
      | inl acc ↦ (accepted_events, Mirrors-accepted marked acc (plain.accepted_rejected acc))
      | inr acc ↦ (rejected_events, Mirrors-rejected marked acc)
    ]
  ]
