-- ===== src/Logmon/Watch.antt =====
-- The tailer and the aggregator together, while the log grows.
use mathlib.Core.Path.{subst}
use kamado_pool.Base.{
  ℕ, ◌+◌, ◌≤◌, ◌≡◌, refl, ◌∙◌, sym, ap, List, [], ◌∷◌, ◌++◌, some, String, arith, length,
  append_nil, append_assoc, length-append, All,
}
use kamado_pool.Base.Time.{Time}
use kamado_pool.Base.Float.{Float64}
use kamado_pool.State.Types.{ShareEvent, Aggregator, DiffDist, empty_dist}
use kamado_pool.State.Codec.{Codec}
use kamado_pool.State.Shares.{ShareStats, ingest_shares, bucket_all}
use kamado_pool.State.Shares.Totals.{accepted_diffs, rejected_reasons, ingest_shares-recount}
use kamado_pool.Logmon.{LineCodec}
use kamado_pool.Logmon.Tail.{Tailer, handle_line, handle_lines}
use kamado_pool.Logmon.Scan.{stats_line, stats_lines, scan_share_stats}
use kamado_pool.Logmon.Agreement.{IsPlain, tag, mirrors}

-- the lines without their times
unfoldable pub texts : List (Time × String) → List String
texts [] = []
texts ((now, line) ∷ lines) = line ∷ texts lines

module _ {F : Type 0} ⦃fl : Float64 F⦄ where
  bucket_all-append :
      (xs ys : List F) (d : DiffDist) → bucket_all (xs ++ ys) d ≡ bucket_all ys (bucket_all xs d)
  unfolding bucket_all
  bucket_all-append [] ys d = refl
  bucket_all-append (x ∷ xs) ys d = bucket_all-append xs ys _

  tag-append :
      (at : Time) (xs ys : List (ShareEvent F))
      → (accepted_diffs (tag at (xs ++ ys))
          ≡ accepted_diffs (tag at xs) ++ accepted_diffs (tag at ys))
        × ((m : List (String × ℕ))
            → rejected_reasons (tag at (xs ++ ys)) m
              ≡ rejected_reasons (tag at ys) (rejected_reasons (tag at xs) m))
  unfolding tag accepted_diffs rejected_reasons
  tag-append at [] ys = (refl, λ m. refl)
  tag-append at (ev ∷ evs) ys =
      let rest = tag-append at evs ys in (ground (arith, rest.0), λ m. rest.1 _)

  module _ (codec : LineCodec F) where
    stats_lines-append :
        (xs ys : List String) (st : ShareStats F)
        → stats_lines codec (xs ++ ys) st ≡ stats_lines codec ys (stats_lines codec xs st)
    unfolding stats_lines
    stats_lines-append [] ys st = refl
    stats_lines-append (x ∷ xs) ys st = stats_lines-append xs ys _

    -- what some lines send on the channel of shares, and what they add to the scan
    record Sends (lines : List (Time × String)) (evs : List (ShareEvent F)) : Type 0 where
      sent :
          (t : Tailer F)
          → length t.shares + length lines ≤ 64
          → (handle_lines codec lines t).shares ≡ t.shares ++ evs
      diffs :
          (st : ShareStats F) (at : Time)
          → (stats_lines codec (texts lines) st).diffs ≡ st.diffs ++ accepted_diffs (tag at evs)
      reasons :
          (st : ShareStats F) (at : Time)
          → (stats_lines codec (texts lines) st).reject_reasons
            ≡ rejected_reasons (tag at evs) st.reject_reasons

    sends :
        (lines : List (Time × String))
        → All (λ l. IsPlain l.1) lines
        → (evs : List (ShareEvent F)) × Sends lines evs
    unfolding handle_lines stats_lines texts
    sends [] plain = (
      [],
      record {
        sent = λ t h. sym (append_nil t.shares);
        diffs = λ st at. unfold tag accepted_diffs in sym (append_nil st.diffs);
        reasons = λ st at. unfold tag rejected_reasons in refl;
      },
    )
    sends ((now, line) ∷ lines) plain =
        let (evs, one) = mirrors codec now line plain.0 in
        let (more, rest) = sends lines plain.1 in
        (
          evs ++ more,
          record {
            sent = λ t h.
                let first = one.sent t (omega (arith, h)) in
                let len = length-append t.shares evs in
                rest.sent (handle_line codec now line t)
                  (omega (arith, h, ap length first, len, one.few))
                ∙ ap (λ s. s ++ more) first
                ∙ append_assoc t.shares evs more;
            diffs = λ st at.
                rest.diffs (stats_line codec line st) at
                ∙ ap (λ s. s ++ accepted_diffs (tag at more)) (one.diffs st at)
                ∙ append_assoc st.diffs _ _
                ∙ ap (λ s. st.diffs ++ s) (sym (tag-append at evs more).0);
            reasons = λ st at.
                rest.reasons (stats_line codec line st) at
                ∙ ap (rejected_reasons (tag at more)) (one.reasons st at)
                ∙ sym ((tag-append at evs more).1 st.reject_reasons);
          },
        )

    -- Batches of lines: the tailer handles a batch, then IngestShareEvents, at the time given with it,
    -- reads the channel until it is empty.
    unfoldable pub watch :
        Codec F → List (Time × List (Time × String)) → Tailer F → Aggregator F → Aggregator F
    watch acodec [] t a = a
    watch acodec ((now, lines) ∷ batches) t a =
        let t' = handle_lines codec lines t in
        watch acodec batches (record t' { shares = [] })
          (ingest_shares acodec (tag now t'.shares) a)

    -- the whole log that the batches make
    unfoldable pub log_of : List (Time × List (Time × String)) → List String
    log_of [] = []
    log_of ((now, lines) ∷ batches) = texts lines ++ log_of batches

    -- a batch that fits in the channel, of plain lines
    abbrev pub IsBatch : Time × List (Time × String) → Type 0
    IsBatch (now, lines) = (length lines ≤ 64) × All (λ l. IsPlain l.1) lines

    -- the all-time statistics are those of a scan, on top of the histogram d
    abbrev IsCounted : DiffDist → Aggregator F → ShareStats F → Type 0
    IsCounted d a st =
        (a.alltime_diff_dist ≡ bucket_all st.diffs d)
        × (a.alltime_reject_reasons ≡ st.reject_reasons)

    watch-stats :
        (acodec : Codec F) (batches : List (Time × List (Time × String))) (t : Tailer F)
        (a : Aggregator F) (st : ShareStats F) (d : DiffDist)
        → All IsBatch batches
        → t.shares ≡ []
        → IsCounted d a st
        → IsCounted d (watch acodec batches t a) (stats_lines codec (log_of batches) st)
    unfolding watch log_of
    watch-stats acodec [] t a st d fit none_left same = unfold stats_lines in same
    watch-stats acodec ((now, lines) ∷ batches) t a st d fit none_left same =
        let (evs, batch) = sends lines fit.0.1 in
        let t' = handle_lines codec lines t in
        let st' = stats_lines codec (texts lines) st in
        let counted = ingest_shares-recount acodec (tag now t'.shares) a in
        let sent : t'.shares ≡ evs =
          batch.sent t (omega (arith, ap length none_left, fit.0.0))
          ∙ ap (λ s. s ++ evs) none_left in
        let dist' : (ingest_shares acodec (tag now t'.shares) a).alltime_diff_dist
            ≡ bucket_all st'.diffs d =
          counted.0
          ∙ ap (bucket_all (accepted_diffs (tag now t'.shares))) same.0
          ∙ ap (λ s. bucket_all (accepted_diffs (tag now s)) (bucket_all st.diffs d)) sent
          ∙ sym (bucket_all-append st.diffs _ d)
          ∙ ap (λ s. bucket_all s d) (sym (batch.diffs st now)) in
        let reasons' : (ingest_shares acodec (tag now t'.shares) a).alltime_reject_reasons
            ≡ st'.reject_reasons =
          counted.1
          ∙ ap (rejected_reasons (tag now t'.shares)) same.1
          ∙ ap (λ s. rejected_reasons (tag now s) st.reject_reasons) sent
          ∙ sym (batch.reasons st now) in
        let later =
          watch-stats acodec batches (record t' { shares = [] })
            (ingest_shares acodec (tag now t'.shares) a) st' d fit.1 refl (dist', reasons') in
        subst
          (IsCounted d (
            watch acodec batches (record t' { shares = [] })
              (ingest_shares acodec (tag now t'.shares) a)))
          (sym (stats_lines-append (texts lines) (log_of batches) st)) later

    -- While the log grows in batches of at most 64 lines, each line a PoW record, an accepted share, a
    -- rejected one or none of them, and the aggregator empties the channel of shares after each batch,
    -- its all-time histogram and reasons, which start empty, stay those that a scan of the whole log
    -- finds: nothing is lost or counted twice, and a rebuild from the log would change neither.
    pub watch-scan_share_stats :
        (acodec : Codec F) (batches : List (Time × List (Time × String))) (t : Tailer F)
        (a : Aggregator F) (st : ShareStats F)
        → All IsBatch batches
        → t.shares ≡ []
        → a.alltime_diff_dist ≡ empty_dist
        → a.alltime_reject_reasons ≡ []
        → scan_share_stats codec (some (log_of batches)) ≡ some st
        → let a' = watch acodec batches t a in
          (a'.alltime_diff_dist ≡ bucket_all st.diffs empty_dist)
          × (a'.alltime_reject_reasons ≡ st.reject_reasons)
    watch-scan_share_stats acodec batches t a st fit none_left dist reasons found =
        let none_counted : ShareStats F = record {
          accepted = 0;
          diff_sum = fl.nought;
          diffs = [];
          reject_reasons = [];
        } in
        let same : stats_lines codec (log_of batches) none_counted ≡ st =
          unfold scan_share_stats in ground (arith, found) in
        subst (IsCounted empty_dist (watch acodec batches t a)) same (
          watch-stats acodec batches t a none_counted empty_dist fit none_left
            (unfold bucket_all in dist, reasons))
