-- ===== src/Wizard/Result/Meets.antt =====
-- The specification that the interactive setup returns meets the schema.
use autocim_agent.Prelude.{
  Exc, ok, raise, ℕ, ◌-◌, ◌≡◌, refl, subst, String, Bool, true, false, Option, none, some, List, [],
  get_elem?, get_or, if◌then◌else◌,
}
use autocim_agent.Prelude.Dict.{lookup}
use autocim_agent.Prelude.Int.{pos, negsuc}
use autocim_agent.Prelude.Float.{Float}
use autocim_agent.Schemas.{HwConfig}
use autocim_agent.Wizard.{
  Value, text, int, real, unset, Built, built, refused, construct_hw, default_hw_config,
  FileContent, Loaded, loaded, hw_config_error,
}
use autocim_agent.Wizard.Valid.{MeetsSchema, construct_hw-MeetsSchema}
use autocim_agent.Wizard.Prompts.{
  Line, WizardEnv, Answers, is_text, of_built, of_loaded, chosen, assemble_hw_config,
}
use autocim_agent.Wizard.Steps.{Args, build_wizard_steps, at}
use autocim_agent.Wizard.Run.{End, settled, abandoned, left, failed_with, out_of_turns, wizard}
use autocim_agent.Wizard.Result.{
  SetupResult, returned, close_setup, with_files, saved_files, setup_result, final_hw_config,
  run_interactive_setup,
}

module _ {F : Type 0} ⦃fl : Float F⦄ where
  abbrev Meets : Option (HwConfig F) → Type 0
  Meets none = Unit
  Meets (some hw) = MeetsSchema hw

  either-Meets :
      (b : Bool) (c d : Option (HwConfig F)) → Meets c → Meets d → Meets (if b then c else d)
  either-Meets true c d p q = p
  either-Meets false c d p q = q

  or_default-Meets :
      (o : Option (HwConfig F)) (d : HwConfig F)
      → Meets o
      → MeetsSchema d
      → MeetsSchema (get_or o d)
  or_default-Meets none d m h = h
  or_default-Meets (some hw) d m h = m

  of_built-Meets :
      (b : Built F) → ((hw : HwConfig F) → b ≡ built hw → MeetsSchema hw) → Meets (of_built b)
  unfolding of_built
  of_built-Meets (built hw) h = h hw refl
  of_built-Meets (refused fields) h = tt

  of_loaded-Meets :
      (o : Option (Loaded F))
      → ((hw : HwConfig F) → o ≡ some (loaded hw) → MeetsSchema hw)
      → Meets (of_loaded o)
  unfolding of_loaded
  of_loaded-Meets none h = tt
  of_loaded-Meets (some (loaded hw)) h = h hw refl
  of_loaded-Meets (some (hw_config_error e)) h = tt

  chosen-Meets :
      (examples : List (Loaded F)) (v : Option (Value F))
      → ((i : ℕ) (hw : HwConfig F) → get_elem? examples i ≡ some (loaded hw) → MeetsSchema hw)
      → Meets (chosen examples v)
  unfolding chosen
  chosen-Meets examples none h = tt
  chosen-Meets examples (some (int (pos n))) h =
      of_loaded-Meets (get_elem? examples (n - 1)) (h (n - 1))
  chosen-Meets examples (some (int (negsuc n))) h = tt
  chosen-Meets examples (some (text t)) h = tt
  chosen-Meets examples (some (real x)) h = tt
  chosen-Meets examples (some unset) h = tt

module _ {F : Type 0} ⦃fl : Float F⦄ (env : WizardEnv F) (args : Args F)
    (defaults : MeetsSchema {F = F} default_hw_config)
    (examples : (i : ℕ) (hw : HwConfig F)
      → get_elem? env.examples i ≡ some (loaded hw)
      → MeetsSchema hw) where
  assemble-Meets : (answers : Answers F) → Meets (assemble_hw_config env answers)
  unfolding assemble_hw_config
  assemble-Meets answers =
      let mode = lookup "hw_mode" answers in
      either-Meets (is_text "1" mode) _ _
        (either-Meets _ _ none
          (of_built-Meets (construct_hw env.coerce answers)
            (construct_hw-MeetsSchema env.coerce answers))
          tt)
        (either-Meets (is_text "2" mode) _ _
          (chosen-Meets env.examples (lookup "example_choice" answers) examples)
          (either-Meets (is_text "3" mode) (some default_hw_config) none defaults tt))

  with_files-Same :
      (made result : SetupResult F) (saved : Exc (String → FileContent F))
      (files' : String → FileContent F)
      → with_files env args made saved ≡ returned result files'
      → made ≡ result
  unfolding with_files
  with_files-Same made result (ok files) files' h = cc h
  with_files-Same made result (raise e) files' h = cc h

  close_setup-Meets :
      (files files' : String → FileContent F) (end : End F) (result : SetupResult F)
      → close_setup env args files end ≡ returned result files'
      → MeetsSchema result.hw_config
  unfolding setup_result final_hw_config
  close_setup-Meets files files' (settled answers) result h =
      let same =
        with_files-Same (setup_result env args answers) result (saved_files env args answers files)
          files' h in
      subst (λ r. MeetsSchema (SetupResult.hw_config r)) same
        (or_default-Meets (assemble_hw_config env answers) default_hw_config
          (assemble-Meets answers) defaults)
  close_setup-Meets files files' abandoned result h = cc h
  close_setup-Meets files files' left result h = cc h
  close_setup-Meets files files' (failed_with e) result h = cc h
  close_setup-Meets files files' out_of_turns result h = cc h

  -- Whatever is typed, a specification that the interactive setup returns meets the schema of
  -- `HWConfig`, its floats included, if the default one and the example files do.
  pub run_interactive_setup-MeetsSchema :
      (turns : ℕ) (files files' : String → FileContent F) (lines : List Line)
      (result : SetupResult F)
      → run_interactive_setup env args turns files lines ≡ returned result files'
      → MeetsSchema result.hw_config
  unfolding run_interactive_setup
  run_interactive_setup-MeetsSchema turns files files' lines result =
      close_setup-Meets files files' (wizard env (build_wizard_steps args) turns [] (at 0) lines)
        result
