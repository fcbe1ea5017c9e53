-- ===== src/State/Refresh/Counters.antt =====
-- The all-time share counts against the sequence of ckpool's answers.
use kamado_pool.Base.{ℕ, ◌+◌, ◌-◌, ◌%◌, ◌^◌, ◌<◌, ◌≡◌, refl, true, List, [], ◌∷◌, some, arith, All}
use kamado_pool.Base.Word.{add64, sub64, le64}
use kamado_pool.Base.Float.{Float64}
use kamado_pool.State.Types.{Aggregator, PoolStats}
use kamado_pool.State.Shares.{reset_session_share_stats}
use kamado_pool.State.Refresh.{integrate_counts}

-- The sum of all rises of a counter from a first value on; a fall counts nothing.
abbrev pub rises : ℕ → List ℕ → ℕ
rises last [] = 0
rises last (x ∷ xs) = (x - last) + rises x xs

module _ {F : Type 0} where
  unfoldable pub shares_of : List (PoolStats F) → List ℕ
  shares_of [] = []
  shares_of (ps ∷ rest) = ps.shares ∷ shares_of rest

  unfoldable pub rejects_of : List (PoolStats F) → List ℕ
  rejects_of [] = []
  rejects_of (ps ∷ rest) = ps.reject_count ∷ rejects_of rest

  -- counters that are not negative
  abbrev pub IsCounter : PoolStats F → Type 0
  IsCounter ps = (ps.shares < 2 ^ 63) × (ps.reject_count < 2 ^ 63)

module _ {F : Type 0} ⦃fl : Float64 F⦄ where
  -- the answers of a sequence of rounds
  pub integrate_all : List (PoolStats F) → Aggregator F → Aggregator F
  integrate_all [] a = a
  integrate_all (ps ∷ rest) a = integrate_all rest (integrate_counts (some ps) a)

  integrate_counts_lem :
      (ps : PoolStats F) (a : Aggregator F)
      → IsCounter ps
      → a.has_share_count_baseline ≡ true
      → a.last_pool_accepted_raw < 2 ^ 63
      → a.last_pool_rejected_raw < 2 ^ 63
      → let a' = integrate_counts (some ps) a in
        (a'.alltime_accepted % 2 ^ 64
          ≡ (a.alltime_accepted + (ps.shares - a.last_pool_accepted_raw)) % 2 ^ 64)
        × (a'.alltime_rejected % 2 ^ 64
            ≡ (a.alltime_rejected + (ps.reject_count - a.last_pool_rejected_raw)) % 2 ^ 64)
        × (a'.has_share_count_baseline ≡ true)
        × (a'.last_pool_accepted_raw ≡ ps.shares)
        × (a'.last_pool_rejected_raw ≡ ps.reject_count)
  unfolding integrate_counts reset_session_share_stats le64 add64 sub64
  integrate_counts_lem ps a (hs, hr) base la lr = ground arith

  rises_from :
      (answers : List (PoolStats F)) (a : Aggregator F) (acc rej : ℕ)
      → All IsCounter answers
      → a.has_share_count_baseline ≡ true
      → a.last_pool_accepted_raw ≡ acc
      → a.last_pool_rejected_raw ≡ rej
      → acc < 2 ^ 63
      → rej < 2 ^ 63
      → let a' = integrate_all answers a in
        (a'.alltime_accepted % 2 ^ 64
          ≡ (a.alltime_accepted + rises acc (shares_of answers)) % 2 ^ 64)
        × (a'.alltime_rejected % 2 ^ 64
            ≡ (a.alltime_rejected + rises rej (rejects_of answers)) % 2 ^ 64)
  unfolding integrate_all shares_of rejects_of
  rises_from [] a acc rej _ base ea er la lr = (omega arith, omega arith)
  rises_from (ps ∷ rest) a acc rej (h, hs) base ea er la lr =
      let (up, down, base', ea', er') =
        integrate_counts_lem ps a h base (omega arith) (omega arith) in
      let (ih0, ih1) =
        rises_from rest (integrate_counts (some ps) a) ps.shares ps.reject_count hs base' ea' er'
          h.0 h.1 in
      (omega (arith, up, ih0), omega (arith, down, ih1))

  -- Once there is a baseline, the all-time counts grow by exactly the sum of the rises of ckpool's
  -- counters over the rounds (in int64 arithmetic): a fall, when ckpool restarts, neither lowers them
  -- nor adds to them. The counters that ckpool reports are not negative.
  pub integrate_all-rises :
      (answers : List (PoolStats F)) (a : Aggregator F)
      → All IsCounter answers
      → a.has_share_count_baseline ≡ true
      → a.last_pool_accepted_raw < 2 ^ 63
      → a.last_pool_rejected_raw < 2 ^ 63
      → let a' = integrate_all answers a in
        (a'.alltime_accepted % 2 ^ 64
          ≡ (a.alltime_accepted + rises a.last_pool_accepted_raw (shares_of answers)) % 2 ^ 64)
        × (a'.alltime_rejected % 2 ^ 64
            ≡ (a.alltime_rejected + rises a.last_pool_rejected_raw (rejects_of answers)) % 2 ^ 64)
  integrate_all-rises answers a hs base la lr =
      rises_from answers a a.last_pool_accepted_raw a.last_pool_rejected_raw hs base refl refl la lr
