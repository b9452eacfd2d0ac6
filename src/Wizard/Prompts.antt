-- ===== src/Wizard/Prompts.antt =====
-- main.py: the prompts of the interactive setup. A prompt reads lines until one is an answer; the end
-- of the list is the end of the input.
use autocim_agent.Prelude.{
  String, str_eq, Bool, true, false, ◌&&◌, ◌||◌, Option, none, some, List, [], ◌∷◌, get_elem?,
  get_or, is_empty, length, leb, ◌-◌, if◌then◌else◌,
}
use autocim_agent.Prelude.Dict.{Dict, lookup}
use autocim_agent.Prelude.Int.{ℤ, pos}
use autocim_agent.Prelude.Float.{Float}
use autocim_agent.Schemas.{HwConfig}
use autocim_agent.Calibration.{bootstrap_calibration_factors, find_nearest_reference}
use autocim_agent.Calibration.References.{known_references}
use autocim_agent.Session.Prompt.{is_back}
use autocim_agent.Wizard.{
  Value, text, int, real, unset, Coerce, Built, built, refused, given, construct_hw,
  default_hw_config, Loaded, loaded, hw_config_error,
}

-- A line at the terminal, or Ctrl-C in its place.
pub data Line : Type 0 where
  typed : String → Line
  ctrl_c : Line

-- `str.strip`, `str.lower`, and the numbers that a text holds.
pub record Terminal (F : Type 0) : Type 0 where
  pub strip : String → String
  pub lower : String → String
  pub parse_int : String → Option ℤ
  pub parse_float : String → Option F

-- What the wizard takes from elsewhere: the example files as `load_hw_config` loads them, the initial
-- values of the fields, the path of the report for a specification, and where files can be written.
pub record WizardEnv (F : Type 0) : Type 0 where
  pub terminal : Terminal F
  pub coerce : Coerce F
  pub examples : List (Loaded F)
  pub initial_defaults : Dict (Value F)
  pub report_path : String → String
  pub can_write : String → Bool

abbrev pub Answers : Type 0 → Type 0
Answers F = Dict (Value F)

-- The prompts of the steps.
pub data Kind : Type 0 where
  hw_mode text_field int_field float_field example_choice approx_calibration target dashboard_yn
        save_yn :
      Kind

-- What a line is to a prompt: not an answer, the back-command, an answer, or the wish to leave.
pub data Heard (F : Type 0) : Type 0 where
  again : Heard F
  back : Heard F
  answer : Value F → Heard F
  leave : Heard F

-- How a prompt ends.
pub data Asked (F : Type 0) : Type 0 where
  got : Value F → List Line → Asked F
  stepped_back : List Line → Asked F
  end_of_input : Asked F
  cancelled : Asked F
  exited : Asked F

-- `_CUSTOM_HW_CONFIG_FIELD_NAMES`
abbrev pub custom_field_names : List String
custom_field_names =
    "hw_spec_id" ∷ "crossbar_rows" ∷ "crossbar_cols" ∷ "num_tiles" ∷ "adc_bits" ∷ "dac_bits"
    ∷ "noc_topology" ∷ "noc_link_bandwidth_gbps" ∷ "wire_resistance_ohm_per_um"
    ∷ "device_noise_sigma" ∷ "sram_buffer_kb" ∷ []

-- `answers.get("hw_mode") == choice`
abbrev pub is_text : {F : Type 0} → String → Option (Value F) → Bool
is_text choice (some (text t)) = str_eq t choice
is_text choice _ = false

module _ {F : Type 0} where
  -- `answers.get(key)`
  abbrev pub current : Answers F → String → Value F
  current answers key = get_or (lookup key answers) unset

  abbrev or_else : Value F → Value F → Value F
  or_else unset d = d
  or_else (text t) d = text t
  or_else (int z) d = int z
  or_else (real x) d = real x

  all_given : Answers F → List String → Bool
  all_given answers [] = true
  all_given answers (name ∷ names) = given (lookup name answers) && all_given answers names

  unfoldable pub of_built : Built F → Option (HwConfig F)
  of_built (built hw) = some hw
  of_built (refused fields) = none

  unfoldable pub of_loaded : Option (Loaded F) → Option (HwConfig F)
  of_loaded (some (loaded hw)) = some hw
  of_loaded (some (hw_config_error e)) = none
  of_loaded none = none

  -- The file with the chosen number, from 1 on.
  unfoldable pub chosen : List (Loaded F) → Option (Value F) → Option (HwConfig F)
  unfolding of_loaded
  chosen examples (some (int (pos n))) = of_loaded (get_elem? examples (n - 1))
  chosen examples _ = none

module _ {F : Type 0} ⦃fl : Float F⦄ where
  unfoldable pub unmatched : Option (HwConfig F) → Bool
  unmatched none = false
  unmatched (some hw) = is_empty (bootstrap_calibration_factors known_references hw)

module _ {F : Type 0} ⦃fl : Float F⦄ (env : WizardEnv F) where
  unfoldable pub assemble_hw_config : Answers F → Option (HwConfig F)
  unfolding all_given of_built chosen
  assemble_hw_config answers =
      let mode = lookup "hw_mode" answers in
      if is_text "1" mode
      then (if all_given answers custom_field_names
          then of_built (construct_hw env.coerce answers)
          else none)
      else if is_text "2" mode
      then chosen env.examples (lookup "example_choice" answers)
      else if is_text "3" mode
      then some default_hw_config
      else none

  unfoldable pub needs_approx_calibration_choice : Answers F → Bool
  unfolding unmatched
  needs_approx_calibration_choice answers = unmatched (assemble_hw_config answers)

  -- Whether a step is asked: the `applicable` of `_build_wizard_steps`.
  unfoldable pub applicable : Kind → Answers F → Bool
  applicable text_field answers = is_text "1" (lookup "hw_mode" answers)
  applicable int_field answers = is_text "1" (lookup "hw_mode" answers)
  applicable float_field answers = is_text "1" (lookup "hw_mode" answers)
  applicable example_choice answers = is_text "2" (lookup "hw_mode" answers)
  applicable approx_calibration answers = needs_approx_calibration_choice answers
  applicable save_yn answers = is_text "1" (lookup "hw_mode" answers)
  applicable hw_mode answers = true
  applicable target answers = true
  applicable dashboard_yn answers = true

module _ {F : Type 0} (env : WizardEnv F) where
  lowered_back : String → Bool
  lowered_back raw = is_back (env.terminal.lower raw)

  answered_int : Option ℤ → Heard F
  answered_int none = again
  answered_int (some z) = answer (int z)

  answered_float : Option F → Heard F
  answered_float none = again
  answered_float (some x) = answer (real x)

  -- `_read_step`, `_parse_int_step` and `_parse_float_step`, on a stripped line.
  read_field : (String → Heard F) → Value F → String → Heard F
  unfolding lowered_back
  read_field parse default raw =
      if lowered_back raw then back else if str_eq raw "" then answer default else parse raw

  -- `_prompt_hw_mode`
  read_mode : String → Heard F
  unfolding lowered_back
  read_mode raw_choice =
      let choice = if str_eq raw_choice "" then "4" else raw_choice in
      if str_eq choice "4" || lowered_back choice
      then leave
      else if str_eq choice "1" || (str_eq choice "2" || str_eq choice "3")
      then answer (text choice)
      else answer (text "3")

  in_listing : Option ℤ → Heard F
  in_listing (some (pos n)) =
      if leb 1 n && leb n (length env.examples) then answer (int (pos n)) else again
  in_listing _ = again

  -- `_prompt_example_choice`
  read_example : Value F → String → Heard F
  unfolding lowered_back in_listing
  read_example now raw =
      if lowered_back raw
      then back
      else if str_eq raw "" && given (some now)
      then answer now
      else in_listing (env.terminal.parse_int raw)

  -- The current answer if it is one of the two, and else the default.
  yes_or_no : Value F → String → Value F
  yes_or_no now default =
      if is_text "y" (some now) || is_text "n" (some now) then now else text default

  -- `_prompt_approx_calibration`, `_prompt_dashboard_yn` and `_prompt_save_custom_hw_config`, on a
  -- line in lower case.
  read_yes_no : String → Value F → String → Heard F
  unfolding yes_or_no
  read_yes_no default now raw =
      if is_back raw
      then back
      else if str_eq raw ""
      then answer (yes_or_no now default)
      else if str_eq raw "y"
      then answer (text "y")
      else answer (text "n")

  -- `_prompt_target`
  read_target : Value F → String → Heard F
  unfolding lowered_back answered_float
  read_target now raw =
      if lowered_back raw
      then back
      else if str_eq raw ""
      then answer now
      else if str_eq raw "-" || str_eq raw "빈칸"
      then answer unset
      else answered_float (env.terminal.parse_float raw)

  -- A stripped line at the prompt of a step; `default` is the current answer of a field, or its
  -- initial value.
  unfoldable pub read_line : Kind → Value F → (default : Value F) → String → Heard F
  unfolding read_mode read_field answered_int answered_float read_example read_yes_no read_target
  read_line hw_mode now default raw = read_mode raw
  read_line text_field now default raw = read_field (λ r. answer (text r)) default raw
  read_line int_field now default raw =
      read_field (λ r. answered_int (env.terminal.parse_int r)) default raw
  read_line float_field now default raw =
      read_field (λ r. answered_float (env.terminal.parse_float r)) default raw
  read_line example_choice now default raw = read_example now raw
  read_line approx_calibration now default raw = read_yes_no "y" now (env.terminal.lower raw)
  read_line target now default raw = read_target now raw
  read_line dashboard_yn now default raw = read_yes_no "n" now (env.terminal.lower raw)
  read_line save_yn now default raw = read_yes_no "n" now (env.terminal.lower raw)

module _ {F : Type 0} where
  -- How the loop of a prompt goes on after a line.
  abbrev pub after_heard : Asked F → List Line → Heard F → Asked F
  after_heard rest lines again = rest
  after_heard rest lines back = stepped_back lines
  after_heard rest lines (answer v) = got v lines
  after_heard rest lines leave = exited

module _ {F : Type 0} (env : WizardEnv F) where
  -- The loop of a prompt.
  unfoldable pub ask : (String → Heard F) → List Line → Asked F
  ask read [] = end_of_input
  ask read (ctrl_c ∷ lines) = cancelled
  ask read (typed raw ∷ lines) = after_heard (ask read lines) lines (read (env.terminal.strip raw))

module _ {F : Type 0} ⦃fl : Float F⦄ where
  unfoldable pub no_reference : Option (HwConfig F) → Bool
  no_reference none = true
  no_reference (some hw) = elim (find_nearest_reference known_references hw) [
    | none ↦ true
    | some r ↦ false
  ]

module _ {F : Type 0} ⦃fl : Float F⦄ (env : WizardEnv F) where
  -- Where no reference is known for the specification, the calibration is not asked about.
  unfoldable pub nothing_to_ask : Kind → Answers F → Bool
  nothing_to_ask approx_calibration answers = no_reference (assemble_hw_config env answers)
  nothing_to_ask hw_mode answers = false
  nothing_to_ask text_field answers = false
  nothing_to_ask int_field answers = false
  nothing_to_ask float_field answers = false
  nothing_to_ask example_choice answers = false
  nothing_to_ask target answers = false
  nothing_to_ask dashboard_yn answers = false
  nothing_to_ask save_yn answers = false

  -- `step.prompt_fn(answers.get(step.key), answers)`
  unfoldable pub prompt : Kind → String → Answers F → List Line → Asked F
  prompt kind key answers lines =
      let now = current answers key in
      let default = or_else now (current env.initial_defaults key) in
      if nothing_to_ask kind answers
      then got (text "n") lines
      else ask env (read_line env kind now default) lines
