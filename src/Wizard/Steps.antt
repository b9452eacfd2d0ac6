-- ===== src/Wizard/Steps.antt =====
-- main.py: the steps of the interactive setup and the moves between them.
pub mod Lands
pub mod Reads
use autocim_agent.Prelude.{
  ℕ, zero, suc, ◌+◌, String, str_eq, Bool, false, ◌||◌, Option, none, some, List, [], ◌∷◌, ◌++◌,
  get_elem?, drop, if◌then◌else◌,
}
use autocim_agent.Prelude.Int.{ℤ, pos, negsuc}
use autocim_agent.Prelude.Float.{Float}
use autocim_agent.Session.Seed.{Targets}
use autocim_agent.Session.Prompt.{is_back}
use autocim_agent.Wizard.Prompts.{
  Line, typed, ctrl_c, WizardEnv, Answers, Kind, hw_mode, text_field, int_field, float_field,
  example_choice, approx_calibration, target, dashboard_yn, save_yn, applicable,
}

-- `_WizardStep`
pub record WizardStep : Type 0 where
  pub key : String
  pub kind : Kind

abbrev pub wizard_step : String → Kind → WizardStep
wizard_step key kind = record { key = key; kind = kind }

-- The options of the command line that the setup reads.
pub record Args (F : Type 0) : Type 0 where
  pub targets : Targets F
  pub dashboard_out : Option String

abbrev if_missing : {A : Type 0} → Option A → WizardStep → List WizardStep
if_missing none step = step ∷ []
if_missing (some a) step = []

-- `_CUSTOM_HW_CONFIG_STEPS`
abbrev pub custom_steps : List WizardStep
custom_steps =
    wizard_step "hw_spec_id" text_field
    ∷ wizard_step "crossbar_rows" int_field
    ∷ wizard_step "crossbar_cols" int_field
    ∷ wizard_step "num_tiles" int_field
    ∷ wizard_step "adc_bits" int_field
    ∷ wizard_step "dac_bits" int_field
    ∷ wizard_step "noc_topology" text_field
    ∷ wizard_step "noc_link_bandwidth_gbps" float_field
    ∷ wizard_step "wire_resistance_ohm_per_um" float_field
    ∷ wizard_step "device_noise_sigma" float_field
    ∷ wizard_step "sram_buffer_kb" float_field
    ∷ []

unfoldable pub build_wizard_steps : {F : Type 0} → Args F → List WizardStep
build_wizard_steps args =
    wizard_step "hw_mode" hw_mode
    ∷ (custom_steps
        ++ (wizard_step "example_choice" example_choice
            ∷ wizard_step "approx_calibration_yn" approx_calibration
            ∷ (if_missing args.targets.target_accuracy (wizard_step "target_accuracy" target)
                ++ (if_missing args.targets.target_energy_pj (wizard_step "target_energy_pj" target)
                    ++ (if_missing args.targets.target_latency_ms
                          (wizard_step "target_latency_ms" target)
                        ++ (if_missing args.dashboard_out (wizard_step "dashboard_yn" dashboard_yn)
                            ++ (wizard_step "save_custom_hw_config_yn" save_yn ∷ [])))))))

-- An index into the steps, which may have gone below the first.
pub data Position : Type 0 where
  before_first : Position
  at : ℕ → Position

-- `_index_of`
unfoldable pub index_of : String → List WizardStep → ℕ
index_of key [] = 0
index_of key (step ∷ steps) =
    let rest = index_of key steps in if str_eq step.key key then 0 else suc rest

module _ {F : Type 0} ⦃fl : Float F⦄ (env : WizardEnv F) where
  -- The steps to pass over until one applies.
  unfoldable pub passed_over : Answers F → List WizardStep → ℕ
  passed_over answers [] = 0
  passed_over answers (step ∷ steps) =
      let rest = passed_over answers steps in
      if applicable env step.kind answers then 0 else suc rest

  unfoldable pub next_applicable : List WizardStep → Answers F → ℕ → ℕ
  unfolding passed_over
  next_applicable steps answers index = index + passed_over answers (drop index steps)

  is_applicable : Answers F → Option WizardStep → Bool
  is_applicable answers none = false
  is_applicable answers (some step) = applicable env step.kind answers

  -- `_prev_applicable` from the index below `n`.
  unfoldable pub prev_applicable : List WizardStep → Answers F → (n : ℕ) → Position
  unfolding is_applicable
  prev_applicable steps answers zero = before_first
  prev_applicable steps answers (suc i) =
      let rest = prev_applicable steps answers i in
      if is_applicable answers (get_elem? steps i) then at i else rest

  -- The indices of the steps on the confirm screen, from index `i` on.
  unfoldable pub applicable_steps : Answers F → ℕ → List WizardStep → List ℕ
  applicable_steps answers i [] = []
  applicable_steps answers i (step ∷ steps) =
      let rest = applicable_steps answers (suc i) steps in
      if applicable env step.kind answers then i ∷ rest else rest

-- What a line on the confirm screen leads to.
pub data Action : Type 0 where
  not_understood : Action
  proceed : Action
  one_back : Action
  refresh : Action
  jump : ℕ → Action

-- How the confirm screen ends.
pub data Confirmed : Type 0 where
  chosen : Action → List Line → Confirmed
  no_more_input : Confirmed
  interrupted : Confirmed

abbrev pub after_confirm : Confirmed → List Line → Action → Confirmed
after_confirm rest lines not_understood = rest
after_confirm rest lines proceed = chosen proceed lines
after_confirm rest lines one_back = chosen one_back lines
after_confirm rest lines refresh = chosen refresh lines
after_confirm rest lines (jump index) = chosen (jump index) lines

module _ {F : Type 0} (env : WizardEnv F) where
  -- The step with the displayed number, from 1 on.
  displayed : List ℕ → Option ℤ → Action
  displayed indices (some (pos (suc n))) = elim (get_elem? indices n) [
    | none ↦ not_understood
    | some index ↦ jump index
  ]
  displayed indices (some (pos zero)) = not_understood
  displayed indices (some (negsuc n)) = not_understood
  displayed indices none = not_understood

  -- The loop of `_show_confirm_screen`, on a stripped line in lower case.
  unfoldable pub read_confirm : List ℕ → String → Action
  unfolding displayed
  read_confirm indices raw =
      if str_eq raw "" || str_eq raw "y"
      then proceed
      else if str_eq raw "n" || is_back raw
      then one_back
      else if str_eq raw "r"
      then refresh
      else displayed indices (env.terminal.parse_int raw)

  unfoldable pub show_confirm_screen : List ℕ → List Line → Confirmed
  show_confirm_screen indices [] = no_more_input
  show_confirm_screen indices (ctrl_c ∷ lines) = interrupted
  show_confirm_screen indices (typed raw ∷ lines) =
      after_confirm (show_confirm_screen indices lines) lines
        (read_confirm indices (env.terminal.lower (env.terminal.strip raw)))
