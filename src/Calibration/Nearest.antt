-- ===== src/Calibration/Nearest.antt =====
-- The nearest reference, and where the two ways to calibrate agree.
use autocim_agent.Prelude.{
  ℕ, ◌≡◌, refl, Bool-cases, inl, inr, true, false, ◌&&◌, some, List, [], ◌∷◌, All, arith, ◌==◌, sym,
  subst,
}
use autocim_agent.Prelude.Float.{Float, IsOrder, IsTotal}
use autocim_agent.Schemas.{HwConfig}
use autocim_agent.Calibration.{
  CalibrationReference, matches, find_matching_reference, bootstrap_calibration_factors,
  reference_distance, min_by, find_nearest_reference, reference_shaped,
  compute_approximate_calibration_factor, bootstrap_approximate_calibration_factors,
}

module _ {F : Type 0} ⦃fl : Float F⦄ (law : IsOrder fl) (total : IsTotal fl) where
  -- No reference of the list has a smaller key.
  abbrev pub Least :
      (CalibrationReference F → F) → CalibrationReference F → List (CalibrationReference F) → Type 0
  Least key r = All (λ x. fl.lt (key x) (key r) ≡ false)

  below : (x y m : F) → fl.lt y m ≡ false → fl.le y x ≡ true → fl.lt x m ≡ false
  below x y m h k = total.not_lt_of_le m x (law.le_trans m y x (total.le_of_not_lt y m h) k)

  min_by-better :
      (key : CalibrationReference F → F) (best r : CalibrationReference F)
      (references : List (CalibrationReference F))
      → fl.lt (key r) (key best) ≡ true
      → min_by key best (r ∷ references) ≡ min_by key r references
  unfolding min_by
  min_by-better key best r references h = rw (h, min_by) refl

  min_by-worse :
      (key : CalibrationReference F → F) (best r : CalibrationReference F)
      (references : List (CalibrationReference F))
      → fl.lt (key r) (key best) ≡ false
      → min_by key best (r ∷ references) ≡ min_by key best references
  unfolding min_by
  min_by-worse key best r references h = rw (h, min_by) refl

  min_by-Least :
      (key : CalibrationReference F → F) (best : CalibrationReference F)
      (references : List (CalibrationReference F))
      → Least key (min_by key best references) (best ∷ references)
  unfolding min_by
  min_by-Least key best [] = (law.lt-irrefl (key best), tt)
  min_by-Least key best (r ∷ references) = elim (Bool-cases (fl.lt (key r) (key best))) [
    | inl h ↦
        let (first, rest) = min_by-Least key r references in
        subst (λ m. Least key m (best ∷ r ∷ references))
          (sym (min_by-better key best r references h))
          (below _ _ _ first (law.le_of_lt _ _ h), (first, rest))
    | inr h ↦
        let (first, rest) = min_by-Least key best references in
        subst (λ m. Least key m (best ∷ r ∷ references))
          (sym (min_by-worse key best r references h))
          (first, (below _ _ _ first (total.le_of_not_lt _ _ h), rest))
  ]

  -- The reference that is found as the nearest one comes with its distance, and no reference of the
  -- list is nearer; for distances that are comparable.
  pub find_nearest_reference-Least :
      (references : List (CalibrationReference F)) (hw : HwConfig F) (r : CalibrationReference F)
      (d : F)
      → find_nearest_reference references hw ≡ some (r, d)
      → (d ≡ reference_distance hw r) × Least (reference_distance hw) r references
  unfolding find_nearest_reference
  find_nearest_reference-Least [] hw r d h = cc h
  find_nearest_reference-Least (x ∷ references) hw r d h =
      let m = min_by (reference_distance hw) x references in
      let same : m ≡ r = cc h in
      (
        cc h,
        subst (λ r. Least (reference_distance hw) r (x ∷ references)) same
            (min_by-Least (reference_distance hw) x references),
      )

three_equal :
    (a b c d e f : ℕ) → (a == b && (c == d && e == f)) ≡ true → (a ≡ b) × (c ≡ d) × (e ≡ f)
three_equal a b c d e f h = ground arith

module _ {F : Type 0} ⦃fl : Float F⦄ where
  same_shape :
      (hw : HwConfig F) (r : CalibrationReference F)
      → matches hw r ≡ true
      → reference_shaped hw r ≡ hw
  same_shape hw r h =
      let (rows, cols, adc) =
        three_equal r.crossbar_rows hw.crossbar_rows r.crossbar_cols hw.crossbar_cols r.adc_bits
          hw.adc_bits h in
      rw (rows, cols, adc) refl

  matching-shape :
      (references : List (CalibrationReference F)) (hw : HwConfig F) (r : CalibrationReference F)
      → find_matching_reference references hw ≡ some r
      → reference_shaped hw r ≡ hw
  unfolding find_matching_reference
  matching-shape [] hw r h = cc h
  matching-shape (x ∷ references) hw r h = elim (Bool-cases (matches hw x)) [
    | inl m ↦
        let found : some x ≡ some r = (rw (m, find_matching_reference) at h) in
        let same : x ≡ r = (cc found) in
        subst (λ r. reference_shaped hw r ≡ hw) same (same_shape hw x m)
    | inr n ↦ matching-shape references hw r (rw (n, find_matching_reference) at h)
  ]

  -- Where the hardware has an exact reference and the nearest one is that reference, the
  -- approximate calibration gives the very factors of the exact one.
  pub bootstrap_approximate_calibration_factors_exact :
      (references : List (CalibrationReference F)) (hw : HwConfig F) (r : CalibrationReference F)
      (d : F)
      → find_matching_reference references hw ≡ some r
      → find_nearest_reference references hw ≡ some (r, d)
      → bootstrap_approximate_calibration_factors references hw
        ≡ bootstrap_calibration_factors references hw
  unfolding bootstrap_approximate_calibration_factors bootstrap_calibration_factors
      compute_approximate_calibration_factor
  bootstrap_approximate_calibration_factors_exact references hw r d m n =
      rw
        (
          m,
          n,
          bootstrap_approximate_calibration_factors,
          bootstrap_calibration_factors,
          matching-shape references hw r m,
        )
        refl
