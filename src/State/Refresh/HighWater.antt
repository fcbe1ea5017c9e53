-- ===== src/State/Refresh/HighWater.antt =====
-- The best difficulty after a round of refresh, against what the workers report.
use mathlib.Core.Path.{subst}
use kamado_pool.Base.{
  ◌≡◌, refl, sym, ap, ◌∙◌, ◌⊎◌, inl, inr, true, false, List, [], ◌∷◌, Option, All, arith,
  Bool-cases, if◌then◌else◌,
}
use kamado_pool.Base.Time.{Time}
use kamado_pool.Base.Float.{Float64, IsOrdered}
use kamado_pool.State.Types.{Aggregator, Worker, BlockchainInfo}
use kamado_pool.State.Codec.{Codec}
use kamado_pool.State.Shares.Best.{IsRise, rise-bound, IsRise-trans}
use kamado_pool.State.Refresh.{
  or_else, empty_snapshot, Reply, answer, failure, Polls, Round, poll_stats, poll_ckpool,
  poll_chain, poll_peers, predict, retarget, best_of_workers, poll, refresh,
}
use kamado_pool.State.Refresh.Rounds.{higher}
use kamado_pool.State.Refresh.Failover.{refresh_lem}

-- What IEEE 754 says of `<` and of the values that equal themselves, which are all but NaN: 0 is one,
-- so is what something is below of, and between two others it keeps their order.
pub record IsLinear {F : Type 0} (fl : Float64 F) : Type 0 where
  pub nought_number : fl.eq fl.nought fl.nought ≡ true
  pub lt_number : (x y : F) → fl.lt x y ≡ true → fl.eq y y ≡ true
  pub lt_through :
      (x y z : F) → fl.eq y y ≡ true → fl.lt x y ≡ false → fl.lt y z ≡ false → fl.lt x z ≡ false

module _ {F : Type 0} ⦃fl : Float64 F⦄ where
  -- a worker's difficulty: the best one ever, and where that is 0, the best one
  abbrev pub reported : Worker F → F
  reported w = if fl.eq w.best_ever fl.nought then w.best_diff else w.best_ever

  -- the workers of a round: none, where the call failed
  abbrev pub listed : Polls F → List (Worker F)
  listed polls = or_else polls.workers []

  -- x is the difficulty of one of the workers
  abbrev pub IsReported : F → List (Worker F) → Type 0
  IsReported x [] = ⊥
  IsReported x (w ∷ ws) = (x ≡ reported w) ⊎ IsReported x ws

  -- no worker's difficulty is above x
  abbrev pub Tops : F → List (Worker F) → Type 0
  Tops x = All (λ w. fl.lt x (reported w) ≡ false)

  workers_chain :
      (now : Time) (info : Reply (BlockchainInfo F)) (nh : Option F) (r : Round F)
      → let n = (poll_chain now info nh r).next in
        (n.workers ≡ r.next.workers) × (n.best_diff ≡ r.next.best_diff)
  unfolding poll_chain
  workers_chain now (answer info) nh r = (refl, refl)
  workers_chain now (failure e) nh r = (refl, refl)

  workers_ckpool :
      (now : Time) (polls : Polls F) (a : Aggregator F)
      → let n = (poll_ckpool polls (record { agg = a; next = empty_snapshot now })).next in
        (n.workers ≡ listed polls) × (n.best_diff ≡ fl.nought)
  unfolding poll_ckpool poll_stats empty_snapshot
  workers_ckpool now polls a = ground arith

  workers_peers :
      (polls : Polls F) (r : Round F)
      → let n = poll_peers polls.connections r.next in
        (n.workers ≡ r.next.workers) × (n.best_diff ≡ r.next.best_diff)
  unfolding poll_peers
  workers_peers polls r = ground arith

  workers_retarget :
      (polls : Polls F) (r : Round F)
      → let n = (retarget polls r).next in
        (n.workers ≡ r.next.workers) × (n.best_diff ≡ r.next.best_diff)
  unfolding retarget predict
  workers_retarget polls r = ground arith

  poll-best_of_workers :
      (now : Time) (polls : Polls F) (a : Aggregator F)
      → (poll now polls a).next.best_diff ≡ best_of_workers (listed polls) fl.nought
  unfolding poll
  poll-best_of_workers now polls a =
      let ck = poll_ckpool polls (record { agg = a; next = empty_snapshot now }) in
      let r1 = poll_chain now polls.chain_info polls.network_hash_ps ck in
      let w1 = workers_ckpool now polls a in
      let w2 = workers_chain now polls.chain_info polls.network_hash_ps ck in
      let w3 = workers_peers polls r1 in
      let w4 = workers_retarget polls (record r1 { next = poll_peers polls.connections r1.next }) in
      let ws = w4.0 ∙ w3.0 ∙ w2.0 ∙ w1.0 in let best = w4.1 ∙ w3.1 ∙ w2.1 ∙ w1.1 in cc

module _ {F : Type 0} ⦃fl : Float64 F⦄ (codec : Codec F) (order : IsOrdered fl)
    (linear : IsLinear fl) where
  open order use {lt_irrefl, lt_trans}
  open linear use {nought_number, lt_number, lt_through}

  -- one worker
  higher-IsRise : (x y : F) → IsRise fl x (higher x y)
  higher-IsRise x y = ground arith

  higher-bound : (x y : F) → fl.lt (higher x y) y ≡ false
  higher-bound x y = ground (arith, lt_irrefl y)

  best-IsRise : (ws : List (Worker F)) (x : F) → IsRise fl x (best_of_workers ws x)
  unfolding best_of_workers
  best-IsRise [] x = inl refl
  best-IsRise (w ∷ ws) x =
      IsRise-trans codec order (higher-IsRise x (reported w))
        (best-IsRise ws (higher x (reported w)))

  best-Tops : (ws : List (Worker F)) (x : F) → Tops (best_of_workers ws x) ws
  unfolding best_of_workers
  best-Tops [] x = tt
  best-Tops (w ∷ ws) x =
      let y = higher x (reported w) in
      (
        rise-bound codec order (reported w) (best-IsRise ws y) (higher-bound x (reported w)),
        best-Tops ws y,
      )

  best-IsReported :
      (ws : List (Worker F)) (x : F)
      → (best_of_workers ws x ≡ x) ⊎ IsReported (best_of_workers ws x) ws
  unfolding best_of_workers
  best-IsReported [] x = inl refl
  best-IsReported (w ∷ ws) x =
      let y = higher x (reported w) in
      let ih = best-IsReported ws y in
      elim (Bool-cases (fl.lt x (reported w))) [
        | inl e ↦ elim ih [ inl h ↦ inr (inl (h ∙ rw e refl)) | inr h ↦ inr (inr h) ]
        | inr e ↦ elim ih [ inl h ↦ inl (h ∙ rw e refl) | inr h ↦ inr (inr h) ]
      ]

  best_number : (ws : List (Worker F)) → let b = best_of_workers ws fl.nought in fl.eq b b ≡ true
  best_number ws = elim (best-IsRise ws fl.nought) [
    | inl e ↦ rw e nought_number
    | inr e ↦ lt_number fl.nought (best_of_workers ws fl.nought) e
  ]

  higher-Tops :
      (x b : F) (ws : List (Worker F)) → fl.eq b b ≡ true → Tops b ws → Tops (higher x b) ws
  higher-Tops x b [] n h = tt
  higher-Tops x b (w ∷ ws) n (h, hs) =
      (ground (arith, lt_through x b (reported w), n, h), higher-Tops x b ws n hs)

  higher-IsReported :
      (x : F) (ws : List (Worker F))
      → fl.lt x fl.nought ≡ false
      → let b = best_of_workers ws fl.nought in (higher x b ≡ x) ⊎ IsReported (higher x b) ws
  higher-IsReported x ws above =
      let b = best_of_workers ws fl.nought in
      elim (Bool-cases (fl.lt x b)) [
        | inr e ↦ inl (rw e refl)
        | inl e ↦ elim (best-IsReported ws fl.nought) [
          | inl h ↦ absurd (ground (arith, e, h, above))
          | inr h ↦ inr (subst (λ y. IsReported y ws) (sym (rw e refl)) h)
        ]
      ]

  -- After a round of refresh that began with a best difficulty not below 0: the best difficulty is the
  -- old one or above it, no worker that ckpool listed in the round reports one above it, it is the old
  -- one or the one that a listed worker reports, and the published snapshot shows it. A worker reports
  -- its best difficulty ever, and where that is 0 its best difficulty. The comparison of floats is that
  -- of IEEE 754.
  pub refresh-best_diff :
      (now : Time) (polls : Polls F) (a : Aggregator F)
      → fl.lt a.best_diff fl.nought ≡ false
      → let a' = (refresh codec now polls a).0 in
        IsRise fl a.best_diff a'.best_diff
        × Tops a'.best_diff (listed polls)
        × ((a'.best_diff ≡ a.best_diff) ⊎ IsReported a'.best_diff (listed polls))
        × (a'.snap.best_diff ≡ a'.best_diff)
  refresh-best_diff now polls a above =
      let o = refresh_lem codec now polls a in
      let ws = listed polls in
      let b = best_of_workers ws fl.nought in
      let same = o.best ∙ ap (higher a.best_diff) (poll-best_of_workers now polls a) in
      let back = λ (P : F → Type 0). subst P (sym same) in
      (
        back (IsRise fl a.best_diff) (higher-IsRise a.best_diff b),
        back (λ x. Tops x ws)
            (higher-Tops a.best_diff b ws (best_number ws) (best-Tops ws fl.nought)),
        back (λ x. (x ≡ a.best_diff) ⊎ IsReported x ws) (higher-IsReported a.best_diff ws above),
        o.shown,
      )
