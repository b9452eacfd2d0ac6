-- ===== src/Wizard/Run.antt =====
-- main.py: `run_interactive_setup`, one turn of its loop after the other, and its result.
pub mod Ends
use autocim_agent.Prelude.{
  ℕ, zero, suc, String, str_eq, Bool, true, false, ◌&&◌, ◌||◌, Option, none, some, List, [], ◌∷◌,
  get_elem?, length, is_some, if◌then◌else◌, Exc, ok, raise,
}
use autocim_agent.Prelude.Dict.{Dict, lookup, insert}
use autocim_agent.Prelude.Float.{Float}
use autocim_agent.Schemas.{HwConfig}
use autocim_agent.Wizard.{Value, text, Built, built, refused, construct_hw, default_hw_config}
use autocim_agent.Wizard.Prompts.{
  Line, WizardEnv, Answers, Kind, hw_mode, text_field, int_field, float_field, example_choice,
  approx_calibration, target, dashboard_yn, save_yn, Asked, got, stepped_back, end_of_input,
  cancelled, exited, custom_field_names, is_text, current, assemble_hw_config, prompt,
}
use autocim_agent.Wizard.Steps.{
  WizardStep, Position, before_first, at, index_of, next_applicable, prev_applicable,
  applicable_steps, not_understood, proceed, one_back, refresh, jump, Confirmed, chosen,
  no_more_input, interrupted, show_confirm_screen,
}

-- What a turn of the loop leads to: another turn, the answers that the setup goes on with, no setup,
-- the end of the program, or an exception.
pub data Turn (F : Type 0) : Type 0 where
  go : Answers F → Position → List Line → Turn F
  settle : Answers F → Turn F
  no_setup : Turn F
  exit : Turn F
  crash : String → Turn F

-- `d.pop(key, None)`
unfoldable pub erase : {V : Type 0} → String → Dict V → Dict V
erase key [] = []
erase key ((k, v) ∷ d) = let rest = erase key d in if str_eq k key then d else (k, v) ∷ rest

abbrev pub is_custom_field : String → List String → Bool
is_custom_field key [] = false
is_custom_field key (name ∷ names) = str_eq name key || is_custom_field key names

abbrev pub last_custom_key : String
last_custom_key = "sram_buffer_kb"

module _ {F : Type 0} where
  all_answered : Answers F → List String → Bool
  all_answered answers [] = true
  all_answered answers (name ∷ names) = is_some (lookup name answers) && all_answered answers names

  spec_id : Option (HwConfig F) → String → String
  spec_id none default = default
  spec_id (some hw) default = hw.hw_spec_id

module _ {F : Type 0} ⦃fl : Float F⦄ (env : WizardEnv F) where
  -- What `_prompt_dashboard_yn` does to `dashboard_path`.
  unfoldable pub report : Kind → Value F → Answers F → Answers F
  unfolding spec_id
  report dashboard_yn v answers =
      if is_text "y" (some v)
      then insert "dashboard_path"
          (text (
            env.report_path (
              spec_id (assemble_hw_config env answers)
                (HwConfig.hw_spec_id (default_hw_config {F = F})))))
          answers
      else erase "dashboard_path" answers
  report hw_mode v answers = answers
  report text_field v answers = answers
  report int_field v answers = answers
  report float_field v answers = answers
  report example_choice v answers = answers
  report approx_calibration v answers = answers
  report target v answers = answers
  report save_yn v answers = answers

  -- `answers[step.key] = value`, after the prompt.
  abbrev pub enter : WizardStep → Value F → Answers F → Answers F
  enter step v answers = insert step.key v (report step.kind v answers)

  -- The refused fields go back to their initial values.
  unfoldable pub reset : List String → Answers F → Answers F
  reset [] answers = answers
  reset (field ∷ fields) answers = reset fields (
      if is_some (lookup field answers)
      then insert field (current env.initial_defaults field) answers
      else answers)

  checked_answers : Answers F → Built F → Answers F × List String
  checked_answers answers (built hw) = (answers, [])
  checked_answers answers (refused fields) = (reset fields answers, fields)

  -- `_try_build_custom_hw_config`: the answers and the refused fields.
  unfoldable pub try_build_custom_hw_config : Answers F → Exc (Answers F × List String)
  unfolding checked_answers all_answered
  try_build_custom_hw_config answers =
      if all_answered answers custom_field_names
      then ok (checked_answers answers (construct_hw env.coerce answers))
      else raise "KeyError"

  -- Where the check of the custom fields leads.
  abbrev pub validated : (good bad : Position) → List Line → Exc (Answers F × List String) → Turn F
  validated good bad lines (raise e) = crash e
  validated good bad lines (ok (answers, [])) = go answers good lines
  validated good bad lines (ok (answers, field ∷ fields)) = go answers bad lines

  module _ (steps : List WizardStep) where
    abbrev first_custom : Position
    first_custom = at (index_of "hw_spec_id" steps)

    abbrev confirm_screen : Position
    confirm_screen = at (length steps)

    -- After the prompt of the step with index `i`.
    abbrev pub sequential : ℕ → WizardStep → Answers F → Asked F → Turn F
    sequential i step answers (got v lines) =
        if str_eq step.key last_custom_key
        then validated (at (suc i)) first_custom lines
            (try_build_custom_hw_config (enter step v answers))
        else go (enter step v answers) (at (suc i)) lines
    sequential i step answers (stepped_back lines) =
        go answers (prev_applicable env steps answers i) lines
    sequential i step answers end_of_input = settle answers
    sequential i step answers cancelled = no_setup
    sequential i step answers exited = exit

    -- After the prompt of a step that the confirm screen has led to.
    abbrev pub jumped : WizardStep → Answers F → Asked F → Turn F
    jumped step answers (got v lines) =
        if is_custom_field step.key custom_field_names
        then validated confirm_screen first_custom lines
            (try_build_custom_hw_config (enter step v answers))
        else go (enter step v answers) confirm_screen lines
    jumped step answers (stepped_back lines) = go answers confirm_screen lines
    jumped step answers end_of_input = settle answers
    jumped step answers cancelled = no_setup
    jumped step answers exited = exit

    abbrev pub jump_to : Option WizardStep → Answers F → List Line → Turn F
    jump_to none answers lines = crash "IndexError"
    jump_to (some step) answers lines =
        jumped step answers (prompt env step.kind step.key answers lines)

    -- After the confirm screen.
    abbrev pub acted : Answers F → Confirmed → Turn F
    acted answers (chosen proceed lines) = settle answers
    acted answers (chosen one_back lines) =
        go answers (prev_applicable env steps answers (length steps)) lines
    acted answers (chosen refresh lines) = go answers confirm_screen lines
    acted answers (chosen not_understood lines) = go answers confirm_screen lines
    acted answers (chosen (jump index) lines) = jump_to (get_elem? steps index) answers lines
    acted answers no_more_input = settle answers
    acted answers interrupted = no_setup

    abbrev pub turn_at : ℕ → Option WizardStep → Answers F → List Line → Turn F
    turn_at i none answers lines =
        acted answers (show_confirm_screen env (applicable_steps env answers 0 steps) lines)
    turn_at i (some step) answers lines =
        sequential i step answers (prompt env step.kind step.key answers lines)

    -- One turn of the `while True`.
    unfoldable pub turn : Answers F → Position → List Line → Turn F
    turn answers before_first lines = no_setup
    turn answers (at index) lines =
        let i = next_applicable env steps answers index in
        turn_at i (get_elem? steps i) answers lines

-- How the loop ends; the last one stands for turns that were not computed.
pub data End (F : Type 0) : Type 0 where
  settled : Answers F → End F
  abandoned : End F
  left : End F
  failed_with : String → End F
  out_of_turns : End F

abbrev pub after_turn : {F : Type 0} → (Answers F → Position → List Line → End F) → Turn F → End F
after_turn rest (go answers position lines) = rest answers position lines
after_turn rest (settle answers) = settled answers
after_turn rest no_setup = abandoned
after_turn rest exit = left
after_turn rest (crash e) = failed_with e

module _ {F : Type 0} ⦃fl : Float F⦄ (env : WizardEnv F) (steps : List WizardStep) where
  -- The loop, at most `turns` times round.
  unfoldable pub wizard : (turns : ℕ) → Answers F → Position → List Line → End F
  wizard zero answers position lines = out_of_turns
  wizard (suc turns) answers position lines =
      after_turn (wizard turns) (turn env steps answers position lines)
