-- ===== src/Tools/Verdict.antt =====
-- What the verdicts of the tools depend on.
use autocim_agent.Prelude.{◌≡◌, ◌↔◌, refl, true, arith, ok, get_or}
use autocim_agent.Prelude.Dict.{lookup}
use autocim_agent.Prelude.Float.{Float, zero_f}
use autocim_agent.Schemas.{success, ToolResult, flag}
use autocim_agent.Tools.{VerifierToolInput, verifier_tool, physically_feasible, datum}

module _ {F : Type 0} ⦃fl : Float F⦄ where
  -- The verifier tool returns a result with status SUCCESS for every input; its verdict is true
  -- exactly when both simulations succeeded, the wires' resistance times the rows, in per cent and
  -- rounded to four digits, is below 5, and 6.02 dB for each bit of the ADC less 20 dB times the
  -- devices' noise, rounded likewise, is above 0. Missing values of the hardware count as 0.
  pub verifier_tool_verdict :
      (args : VerifierToolInput F)
      → (r : ToolResult F) × (verifier_tool args ≡ ok r)
        × (r.status ≡ success)
        × ((datum "is_converged" r.data_ ≡ flag true) ↔ (
            (args.mapper_result.status ≡ success)
            × (args.profiler_result.status ≡ success)
            × (fl.lt
                  (fl.round_to
                    (fl.mul
                      (fl.mul
                        (get_or args.hw_config.wire_resistance_ohm_per_um zero_f)
                        (fl.of_nat args.hw_config.crossbar_rows))
                      (fl.decimal 1 2))
                    4)
                  (fl.of_nat 5)
                ≡ true)
            × (fl.lt zero_f (
                  fl.round_to
                    (fl.sub
                      (fl.mul (fl.decimal 602 2) (fl.of_nat args.hw_config.adc_bits))
                      (fl.mul (fl.of_nat 20) (get_or args.hw_config.device_noise_sigma zero_f)))
                    4)
                ≡ true)))
  unfolding verifier_tool physically_feasible lookup
  verifier_tool_verdict args = (_, refl, refl, ground arith)
