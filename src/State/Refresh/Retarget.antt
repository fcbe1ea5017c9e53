-- ===== src/State/Refresh/Retarget.antt =====
-- The predicted difficulty change stays in the consensus range.
use kamado_pool.Base.{◌≡◌, false, ◌||◌, arith}
use kamado_pool.Base.Word.{Int64, le64}
use kamado_pool.Base.Float.{Float64, IsOrdered}
use kamado_pool.State.Refresh.{clamp_factor, estimate_retarget_percent}

-- Nothing is below itself, and 4 is not below 1/4.
module _ {F : Type 0} ⦃fl : Float64 F⦄ (laws : IsOrdered fl) where
  abbrev pub four : F
  four = fl.of_int 4

  abbrev pub quarter : F
  quarter = fl.div (fl.of_int 1) four

  clamp_factor-clamped :
      (f : F)
      → fl.lt four quarter ≡ false
      → (fl.lt four (clamp_factor f) ≡ false) × (fl.lt (clamp_factor f) quarter ≡ false)
  unfolding clamp_factor
  clamp_factor-clamped f h = ground (arith, laws.lt_irrefl four, laws.lt_irrefl quarter)

  -- In an epoch with at least one interval and some time passed, the prediction is (f - 1) * 100 for
  -- a factor f that is neither above 4 nor below 1/4. In the floats, 4 is not below 1/4.
  pub estimate_retarget_percent-clamped :
      (in_epoch : Int64) (span : F)
      → fl.lt four quarter ≡ false
      → le64 in_epoch 0 || fl.le span fl.nought ≡ false
      → (f : F) × (estimate_retarget_percent in_epoch span
          ≡ fl.mul (fl.sub f (fl.of_int 1)) (fl.of_int 100))
        × (fl.lt four f ≡ false)
        × (fl.lt f quarter ≡ false)
  unfolding estimate_retarget_percent
  estimate_retarget_percent-clamped in_epoch span h e =
      let target = fl.div (fl.of_int 1_209_600) (fl.of_int 2015) in
      let factor = fl.div (fl.mul (fl.of_int in_epoch) target) span in
      let clamped = clamp_factor-clamped factor h in
      (clamp_factor factor, rw e, clamped.0, clamped.1)
