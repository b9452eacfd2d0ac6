-- ===== src/Precision.antt =====
-- tools/precision_check.py
use autocim_agent.Prelude.{List, get_or, if◌then◌else◌}
use autocim_agent.Prelude.Float.{Float, zero_f}
use autocim_agent.Schemas.{HwConfig, LayerBitConfig}
use autocim_agent.Physics.{simulate_cim_profile, cim_tech_params}

pub record PreciseEnergy (F : Type 0) : Type 0 where
  pub raw_energy_pj : F
  pub precise_energy_pj : F

module _ {F : Type 0} ⦃fl : Float F⦄ where
  -- `_DEFAULT_UNCERTAINTY_MARGIN`
  abbrev pub default_uncertainty_margin : F
  default_uncertainty_margin = fl.decimal 1 1

  unfoldable pub simulate_precise_energy : HwConfig F → List (LayerBitConfig F) → PreciseEnergy F
  simulate_precise_energy hw layer_configs =
      let raw = (simulate_cim_profile hw layer_configs cim_tech_params).energy_pj in
      let margin = fl.add (fl.of_nat 1) (get_or hw.device_noise_sigma default_uncertainty_margin) in
      record { raw_energy_pj = raw; precise_energy_pj = fl.mul raw margin }

  unfoldable pub compute_updated_calibration_factor : F → F → F
  compute_updated_calibration_factor raw precise =
      if fl.le raw zero_f then fl.of_nat 1 else fl.div precise raw
