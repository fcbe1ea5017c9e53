-- ===== src/State/Shares/Histogram.antt =====
-- The histogram of a list of difficulties, against the ranges that its buckets stand for.
use kamado_pool.Base.{
  ℕ, ◌+◌, ◌%◌, ◌^◌, ◌<◌, ◌≡◌, refl, Bool, true, not, ◌&&◌, List, [], ◌∷◌, arith, if◌then◌else◌,
}
use kamado_pool.Base.Word.{Int64, add64}
use kamado_pool.Base.Float.{Float64, IsOrdered}
use kamado_pool.State.Types.{DiffDist, empty_dist}
use kamado_pool.State.Shares.{diff_bucket, count_bucket, bucket_all}

-- how many of them pass the test
pub tally : {A : Type 0} → (A → Bool) → List A → ℕ
tally p [] = 0
tally p (x ∷ xs) = (if p x then 1 else 0) + tally p xs

-- The limits of the buckets are in order.
pub record IsAscending {F : Type 0} (fl : Float64 F) : Type 0 where
  pub million : fl.lt (fl.sci 1 6) (fl.sci 1 8) ≡ true
  pub hundred_million : fl.lt (fl.sci 1 8) (fl.sci 1 9) ≡ true
  pub billion : fl.lt (fl.sci 1 9) (fl.sci 1 11) ≡ true
  pub hundred_billion : fl.lt (fl.sci 1 11) (fl.sci 1 12) ≡ true

module _ {F : Type 0} ⦃fl : Float64 F⦄ where
  -- from one limit on and below the other
  abbrev pub between : F → F → F → Bool
  between low high d = not (fl.lt d low) && fl.lt d high

  -- Each bucket counts the difficulties of its range, in int64 arithmetic: those below a million, from
  -- there to 100 million, to a billion, to 100 billion, to 1000 billion, and all others.
  pub record IsHistogram (ds : List F) (dist : DiffDist) : Type 0 where
    pub b0 : dist.b0 ≡ tally (λ d. fl.lt d (fl.sci 1 6)) ds % 2 ^ 64
    pub b1 : dist.b1 ≡ tally (between (fl.sci 1 6) (fl.sci 1 8)) ds % 2 ^ 64
    pub b2 : dist.b2 ≡ tally (between (fl.sci 1 8) (fl.sci 1 9)) ds % 2 ^ 64
    pub b3 : dist.b3 ≡ tally (between (fl.sci 1 9) (fl.sci 1 11)) ds % 2 ^ 64
    pub b4 : dist.b4 ≡ tally (between (fl.sci 1 11) (fl.sci 1 12)) ds % 2 ^ 64
    pub b5 : dist.b5 ≡ tally (λ d. not (fl.lt d (fl.sci 1 12))) ds % 2 ^ 64

  -- a bucket that counts the difficulties of a test, one by one
  abbrev Counts : (DiffDist → Int64) → (F → Bool) → Type 0
  Counts field p =
      (x : F) (d : DiffDist)
      → field (count_bucket (diff_bucket x) d) ≡ (if p x then add64 (field d) 1 else field d)

  Counts-all :
      (field : DiffDist → Int64) (p : F → Bool)
      → Counts field p
      → (ds : List F) (d : DiffDist) → field d < 2 ^ 64
      → field (bucket_all ds d) ≡ (field d + tally p ds) % 2 ^ 64
  unfolding bucket_all tally add64
  Counts-all field p step [] d small = omega (arith, small)
  Counts-all field p step (x ∷ ds) d small =
      let d' = count_bucket (diff_bucket x) d in
      let one = step x d in
      let less : field d' < 2 ^ 64 = ground (arith, one, small) in
      let ih = Counts-all field p step ds d' less in ground (arith, one, ih)

  Counts-empty :
      (field : DiffDist → Int64) (p : F → Bool)
      → Counts field p
      → field empty_dist ≡ 0
      → (ds : List F) → field (bucket_all ds empty_dist) ≡ tally p ds % 2 ^ 64
  Counts-empty field p step zero ds =
      let all = Counts-all field p step ds empty_dist (omega (arith, zero)) in
      ground (arith, all, zero)

  module _ (order : IsOrdered fl) (limits : IsAscending fl) where
    open order use {lt_trans}

    -- what is below one limit is below the next
    below :
        (x : F)
        → ((fl.lt x (fl.sci 1 6) ≡ true) → fl.lt x (fl.sci 1 8) ≡ true)
          × ((fl.lt x (fl.sci 1 8) ≡ true) → fl.lt x (fl.sci 1 9) ≡ true)
          × ((fl.lt x (fl.sci 1 9) ≡ true) → fl.lt x (fl.sci 1 11) ≡ true)
          × ((fl.lt x (fl.sci 1 11) ≡ true) → fl.lt x (fl.sci 1 12) ≡ true)
    below x = (
      λ h. lt_trans x _ _ h limits.million,
      λ h. lt_trans x _ _ h limits.hundred_million,
      λ h. lt_trans x _ _ h limits.billion,
      λ h. lt_trans x _ _ h limits.hundred_billion,
    )

    pub bucket_all-IsHistogram : (ds : List F) → IsHistogram ds (bucket_all ds empty_dist)
    unfolding diff_bucket count_bucket
    bucket_all-IsHistogram ds = record {
      b0 =
          Counts-empty (λ d. d.b0) (λ d. fl.lt d (fl.sci 1 6)) (λ x d. ground (arith, below x)) refl
            ds;
      b1 =
          Counts-empty (λ d. d.b1) (between (fl.sci 1 6) (fl.sci 1 8))
            (λ x d. ground (arith, below x)) refl ds;
      b2 =
          Counts-empty (λ d. d.b2) (between (fl.sci 1 8) (fl.sci 1 9))
            (λ x d. ground (arith, below x)) refl ds;
      b3 =
          Counts-empty (λ d. d.b3) (between (fl.sci 1 9) (fl.sci 1 11))
            (λ x d. ground (arith, below x)) refl ds;
      b4 =
          Counts-empty (λ d. d.b4) (between (fl.sci 1 11) (fl.sci 1 12))
            (λ x d. ground (arith, below x)) refl ds;
      b5 =
          Counts-empty (λ d. d.b5) (λ d. not (fl.lt d (fl.sci 1 12)))
            (λ x d. ground (arith, below x)) refl ds;
    }
