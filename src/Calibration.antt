-- ===== src/Calibration.antt =====
-- tools/calibration.py and schemas/calibration.py: the correction of the analytical energy by
-- published data, from the exact reference or from the nearest one.
pub mod References
pub mod Nearest
use autocim_agent.Prelude.{
  ℕ, ◌*◌, ◌==◌, String, Bool, true, false, ◌&&◌, Option, none, some, List, [], ◌∷◌, if◌then◌else◌,
}
use autocim_agent.Prelude.Dict.{Dict}
use autocim_agent.Prelude.Float.{Float, zero_f}
use autocim_agent.Schemas.{HwConfig, LayerBitConfig}
use autocim_agent.State.{Provenance, reference, approximated}
use autocim_agent.Physics.{dist, simulate_cim_profile, cim_tech_params}

-- `CalibrationReference`
pub record CalibrationReference (F : Type 0) : Type 0 where
  pub crossbar_rows : ℕ
  pub crossbar_cols : ℕ
  pub adc_bits : ℕ
  pub weight_bits : ℕ
  pub reference_energy_pj_per_mac : F
  pub source : String
  pub note : Option String

module _ {F : Type 0} where
  -- The condition of `find_matching_reference`.
  abbrev pub matches : HwConfig F → CalibrationReference F → Bool
  matches hw r =
      r.crossbar_rows == hw.crossbar_rows
      && (r.crossbar_cols == hw.crossbar_cols && r.adc_bits == hw.adc_bits)

  unfoldable pub find_matching_reference :
      List (CalibrationReference F) → HwConfig F → Option (CalibrationReference F)
  find_matching_reference [] hw = none
  find_matching_reference (r ∷ references) hw =
      if matches hw r then some r else find_matching_reference references hw

module _ {F : Type 0} ⦃fl : Float F⦄ where
  unfoldable pub compute_calibration_factor : HwConfig F → CalibrationReference F → F
  compute_calibration_factor hw r =
      let probe : LayerBitConfig F = record {
        layer_name = "_calibration_probe";
        weight_bits = r.weight_bits;
        activation_bits = r.weight_bits;
        column_pruning_ratio = zero_f;
      } in
      let predicted = (simulate_cim_profile hw (probe ∷ []) cim_tech_params).energy_pj in
      let num_macs = hw.crossbar_rows * hw.crossbar_cols in
      let per_mac = if num_macs == 0 then zero_f else fl.div predicted (fl.of_nat num_macs) in
      if fl.le per_mac zero_f then fl.of_nat 1 else fl.div r.reference_energy_pj_per_mac per_mac

  unfoldable pub bootstrap_calibration_factors : List (CalibrationReference F) → HwConfig F → Dict F
  bootstrap_calibration_factors references hw = elim (find_matching_reference references hw) [
    | none ↦ []
    | some r ↦ (hw.hw_spec_id, compute_calibration_factor hw r) ∷ []
  ]

  -- `describe_calibration`
  unfoldable pub describe_calibration :
      List (CalibrationReference F) → HwConfig F → Option (Provenance F)
  describe_calibration references hw = elim (find_matching_reference references hw) [
    | none ↦ none
    | some r ↦ some (reference r.reference_energy_pj_per_mac r.source r.note)
  ]

  unfoldable pub bootstrap_calibration_provenance :
      List (CalibrationReference F) → HwConfig F → Dict (Provenance F)
  bootstrap_calibration_provenance references hw = elim (describe_calibration references hw) [
    | none ↦ []
    | some described ↦ (hw.hw_spec_id, described) ∷ []
  ]

  -- `abs(x)`
  abbrev pub abs_f : F → F
  abs_f x = if fl.lt x zero_f then fl.neg x else x

  unfoldable pub reference_distance : HwConfig F → CalibrationReference F → F
  reference_distance hw r =
      fl.add
        (abs_f (
          fl.sub (fl.log2 (fl.of_nat (hw.crossbar_rows * hw.crossbar_cols)))
            (fl.log2 (fl.of_nat (r.crossbar_rows * r.crossbar_cols)))))
        (fl.of_nat (dist hw.adc_bits r.adc_bits))

  -- Python's `min` by a key: the first of the least ones.
  unfoldable pub min_by :
      (CalibrationReference F → F)
      → CalibrationReference F
      → List (CalibrationReference F)
      → CalibrationReference F
  min_by key best [] = best
  min_by key best (r ∷ references) = elim (fl.lt (key r) (key best)) [
    | true ↦ min_by key r references
    | false ↦ min_by key best references
  ]

  unfoldable pub find_nearest_reference :
      List (CalibrationReference F) → HwConfig F → Option (CalibrationReference F × F)
  find_nearest_reference [] hw = none
  find_nearest_reference (r ∷ references) hw =
      let nearest = min_by (reference_distance hw) r references in
      some (nearest, reference_distance hw nearest)

  -- `hw.model_copy(update=…)`
  abbrev pub reference_shaped : HwConfig F → CalibrationReference F → HwConfig F
  reference_shaped hw r = record hw {
    crossbar_rows = r.crossbar_rows;
    crossbar_cols = r.crossbar_cols;
    adc_bits = r.adc_bits;
  }

  unfoldable pub compute_approximate_calibration_factor : HwConfig F → CalibrationReference F → F
  compute_approximate_calibration_factor hw r = compute_calibration_factor (reference_shaped hw r) r

  unfoldable pub bootstrap_approximate_calibration_factors :
      List (CalibrationReference F) → HwConfig F → Dict F
  bootstrap_approximate_calibration_factors references hw =
      elim (find_nearest_reference references hw) [
        | none ↦ []
        | some (r, distance) ↦ (hw.hw_spec_id, compute_approximate_calibration_factor hw r) ∷ []
      ]

  -- `describe_approximate_calibration`
  unfoldable pub describe_approximate_calibration :
      List (CalibrationReference F) → HwConfig F → Option (Provenance F)
  describe_approximate_calibration references hw = elim (find_nearest_reference references hw) [
    | none ↦ none
    | some (r, distance) ↦ some (
        approximated r.reference_energy_pj_per_mac r.source r.note r.crossbar_rows r.crossbar_cols
          r.adc_bits (fl.round_to distance 4))
  ]

  unfoldable pub bootstrap_approximate_calibration_provenance :
      List (CalibrationReference F) → HwConfig F → Dict (Provenance F)
  bootstrap_approximate_calibration_provenance references hw =
      elim (describe_approximate_calibration references hw) [
        | none ↦ []
        | some described ↦ (hw.hw_spec_id, described) ∷ []
      ]
