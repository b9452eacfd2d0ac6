-- ===== src/Wizard/Result.antt =====
-- main.py: what `run_interactive_setup` returns, and the file that it saves.
pub mod Meets
use autocim_agent.Prelude.{
  ℕ, String, Bool, ◌&&◌, Option, none, some, List, [], get_or, if◌then◌else◌, Exc, ok, raise,
}
use autocim_agent.Prelude.Dict.{lookup}
use autocim_agent.Prelude.Float.{Float}
use autocim_agent.Schemas.{HwConfig}
use autocim_agent.Session.Seed.{Targets}
use autocim_agent.Wizard.{
  Value, text, int, real, unset, default_hw_config, FileContent, save_custom_hw_config,
}
use autocim_agent.Wizard.Prompts.{Line, WizardEnv, Answers, is_text, assemble_hw_config}
use autocim_agent.Wizard.Steps.{Args, build_wizard_steps, at}
use autocim_agent.Wizard.Run.{End, settled, abandoned, left, failed_with, out_of_turns, wizard}

pub record SetupResult (F : Type 0) : Type 0 where
  pub hw_config : HwConfig F
  pub allow_approximate : Bool
  pub targets : Targets F
  pub dashboard_out : Option String

-- How the setup ends, with the files on the disk.
pub data Setup (F : Type 0) : Type 0 where
  returned : SetupResult F → (String → FileContent F) → Setup F
  nothing : Setup F
  exited : Setup F
  raised : String → Setup F
  unknown : Setup F

module _ {F : Type 0} where
  -- `answers.get(key, default)` for a target
  target_of : Option (Value F) → Option F → Option F
  target_of none default = default
  target_of (some (real x)) default = some x
  target_of (some unset) default = none
  target_of (some (int z)) default = none
  target_of (some (text t)) default = none

  path_of : Option (Value F) → Option String
  path_of (some (text t)) = some t
  path_of _ = none

  dashboard_of : Option String → Answers F → Option String
  unfolding path_of
  dashboard_of (some out) answers = some out
  dashboard_of none answers =
      if is_text "y" (lookup "dashboard_yn" answers)
      then path_of (lookup "dashboard_path" answers)
      else none

module _ {F : Type 0} ⦃fl : Float F⦄ (env : WizardEnv F) (args : Args F) where
  -- `_assemble_hw_config(answers) or DEFAULT_HW_CONFIG`
  unfoldable pub final_hw_config : Answers F → HwConfig F
  final_hw_config answers = get_or (assemble_hw_config env answers) default_hw_config

  unfoldable pub setup_result : Answers F → SetupResult F
  unfolding target_of dashboard_of
  setup_result answers = record {
    hw_config = final_hw_config answers;
    allow_approximate = is_text "y" (lookup "approx_calibration_yn" answers);
    targets = record {
      target_accuracy = target_of (lookup "target_accuracy" answers) args.targets.target_accuracy;
      target_energy_pj =
          target_of (lookup "target_energy_pj" answers) args.targets.target_energy_pj;
      target_latency_ms =
          target_of (lookup "target_latency_ms" answers) args.targets.target_latency_ms;
    };
    dashboard_out = dashboard_of args.dashboard_out answers;
  }

  saved_files : Answers F → (String → FileContent F) → Exc (String → FileContent F)
  saved_files answers files =
      if is_text "1" (lookup "hw_mode" answers)
        && is_text "y" (lookup "save_custom_hw_config_yn" answers)
      then save_custom_hw_config env.can_write files (final_hw_config answers)
      else ok files

  -- The setup ends with the exception of a file that cannot be written.
  with_files : SetupResult F → Exc (String → FileContent F) → Setup F
  with_files result (ok files) = returned result files
  with_files result (raise e) = raised e

  abbrev close_setup : (String → FileContent F) → End F → Setup F
  close_setup files (settled answers) =
      with_files (setup_result answers) (saved_files answers files)
  close_setup files abandoned = nothing
  close_setup files left = exited
  close_setup files (failed_with e) = raised e
  close_setup files out_of_turns = unknown

  -- `run_interactive_setup` on the lines that are typed, with at most `turns` turns of its loop.
  unfoldable pub run_interactive_setup :
      (turns : ℕ) → (String → FileContent F) → List Line → Setup F
  unfolding saved_files with_files
  run_interactive_setup turns files lines =
      close_setup files (wizard env (build_wizard_steps args) turns [] (at 0) lines)
