-- ===== src/Tests/Wizard.antt =====
-- What the theorems on the interactive setup say of concrete ones, and what it does after a jump.
use autocim_agent.Prelude.{
  Bool, false, raise, ℕ, zero, suc, ◌*◌, ◌≡◌, ◌≢◌, refl, subst, String, str_eq, true, Option, none,
  some, List, [], ◌∷◌, arith, get_elem?, if◌then◌else◌, ok,
}
use autocim_agent.Prelude.Dict.{lookup, insert}
use autocim_agent.Prelude.Int.{ℤ, pos}
use autocim_agent.Schemas.{HwConfig}
use autocim_agent.Calibration.{
  bootstrap_calibration_factors, find_matching_reference, find_nearest_reference, min_by,
  reference_distance,
}
use autocim_agent.Wizard.{
  Value, text, int, real, unset, Coerce, default_hw_config, FileContent, no_file, loaded,
  load_hw_config, save_custom_hw_config, saved_path, write_file, not_json, json_object, dump_hw,
  construct_hw, given, positive,
}
use autocim_agent.Wizard.Valid.{MeetsSchema}
use autocim_agent.Wizard.Saved.{save_custom_hw_config-kept, IsFaithful, load-save}
use autocim_agent.Wizard.Prompts.{
  Line, typed, Terminal, WizardEnv, Answers, assemble_hw_config, needs_approx_calibration_choice,
  applicable, prompt, ask, read_line, nothing_to_ask, unmatched, no_reference, chosen, of_built,
  of_loaded,
}
use autocim_agent.Wizard.Steps.{
  Args, build_wizard_steps, at, index_of, next_applicable, passed_over, prev_applicable,
  applicable_steps, read_confirm, show_confirm_screen,
}
use autocim_agent.Wizard.Run.{
  End, settled, out_of_turns, wizard, turn, report, reset, erase, try_build_custom_hw_config,
}
use autocim_agent.Wizard.Run.Ends.{wizard-Ends}
use autocim_agent.Wizard.Result.{
  SetupResult, returned, raised, run_interactive_setup, setup_result, final_hw_config,
}
use autocim_agent.Wizard.Result.Meets.{run_interactive_setup-MeetsSchema}
use autocim_agent.Tests.Numbers.{million, micro_float}
use autocim_agent.Tests.Fixtures.{hw}

abbrev read_text : Value ℕ → Option String
read_text (text t) = some t
read_text (int z) = none
read_text (real x) = none
read_text unset = none

abbrev read_int : Value ℕ → Option ℤ
read_int (text t) = none
read_int (int z) = some z
read_int (real x) = none
read_int unset = none

abbrev read_float : Value ℕ → Option ℕ
read_float (text t) = none
read_float (int z) = none
read_float (real x) = some x
read_float unset = none

abbrev coerce : Coerce ℕ
coerce = record { as_text = read_text; as_int = read_int; as_float = read_float }

coerce-IsFaithful : IsFaithful coerce
coerce-IsFaithful = record {
  reads_text = λ t. refl;
  reads_int = λ z. refl;
  reads_float = λ x. refl;
}

abbrev digits : String → Option ℤ
digits t = if str_eq t "1" then some (pos 1) else if str_eq t "2" then some (pos 2) else none

abbrev terminal : Terminal ℕ
terminal = record { strip = λ t. t; lower = λ t. t; parse_int = digits; parse_float = λ t. none }

abbrev env : WizardEnv ℕ
env = record {
  terminal = terminal;
  coerce = coerce;
  examples = loaded hw ∷ [];
  initial_defaults = dump_hw default_hw_config;
  report_path = λ id. "report.html";
  can_write = λ path. true;
}

-- The targets and the report are given on the command line.
abbrev args : Args ℕ
args = record {
  targets = record {
    target_accuracy = some 800000;
    target_energy_pj = some (5 * million);
    target_latency_ms = some million;
  };
  dashboard_out = some "report.html";
}

default-MeetsSchema : MeetsSchema {F = ℕ} default_hw_config
default-MeetsSchema = record {
  whole = omega arith;
  bandwidth_pos = refl;
  resistance_nonneg = refl;
  sigma_nonneg = refl;
  buffer_pos = refl;
}

hw-MeetsSchema : MeetsSchema hw
hw-MeetsSchema = record {
  whole = omega arith;
  bandwidth_pos = refl;
  resistance_nonneg = tt;
  sigma_nonneg = tt;
  buffer_pos = tt;
}

abbrev empty_disk : String → FileContent ℕ
empty_disk path = no_file

abbrev everywhere : String → Bool
everywhere path = true

load-save_example :
    (after : String → FileContent ℕ) × (save_custom_hw_config everywhere empty_disk hw ≡ ok after)
    × (load_hw_config coerce after (some (saved_path "hw")) ≡ ok (loaded hw))
load-save_example =
    load-save coerce coerce-IsFaithful everywhere empty_disk hw hw-MeetsSchema refl refl

abbrev notes : String → FileContent ℕ
notes path = if str_eq path "notes.json" then not_json else no_file

save_custom_hw_config-kept_example :
    write_file notes (saved_path "hw") (json_object (dump_hw hw)) "notes.json" ≡ notes "notes.json"
unfolding save_custom_hw_config
save_custom_hw_config-kept_example =
    save_custom_hw_config-kept everywhere notes
      (write_file notes (saved_path "hw") (json_object (dump_hw hw))) hw refl "notes.json"
      (λ e. cc e)

-- A specification whose file cannot be written is not saved, and the exception goes on.
not_writable : save_custom_hw_config (λ path. false) empty_disk hw ≡ raise "OSError"
unfolding save_custom_hw_config
not_writable = refl

examples-MeetsSchema :
    (i : ℕ) (k : HwConfig ℕ) → get_elem? env.examples i ≡ some (loaded k) → MeetsSchema k
examples-MeetsSchema zero k e =
    let same : hw ≡ k = cc e in subst (λ h. MeetsSchema h) same hw-MeetsSchema
examples-MeetsSchema (suc i) k e = cc e

-- The default specification, with the approximate calibration, after a step back from the end.
abbrev there_and_back : List Line
there_and_back = typed "3" ∷ typed "y" ∷ typed "b" ∷ typed "" ∷ typed "y" ∷ []

abbrev nothing_answered : Answers ℕ
nothing_answered = []

abbrev end_of : List Line → End ℕ
end_of lines = wizard env (build_wizard_steps args) 9 nothing_answered (at 0) lines

wizard-Ends_example : end_of there_and_back ≢ out_of_turns
wizard-Ends_example =
    wizard-Ends env (build_wizard_steps args) 9 nothing_answered (at 0) there_and_back (omega arith)

abbrev answers_of : End ℕ → Answers ℕ
answers_of (settled answers) = answers
answers_of _ = []

-- The default specification is chosen; then, by a jump from the confirm screen, custom values; and
-- then the setup goes on.
abbrev late_custom : List Line
late_custom = typed "3" ∷ typed "y" ∷ typed "1" ∷ typed "1" ∷ typed "y" ∷ []

-- The same, but before it goes on, one of the custom values is typed.
abbrev late_field : List Line
late_field = typed "3" ∷ typed "y" ∷ typed "1" ∷ typed "1" ∷ typed "2" ∷ typed "mine" ∷ []

abbrev fallback : SetupResult ℕ
fallback = record {
  hw_config = default_hw_config;
  allow_approximate = true;
  targets = args.targets;
  dashboard_out = args.dashboard_out;
}

abbrev first_answer : Answers ℕ
first_answer = ("hw_mode", text "3") ∷ []

abbrev after_first : List Line
after_first = typed "y" ∷ typed "b" ∷ typed "" ∷ typed "y" ∷ []

-- The first setup settles with all its answers. The second one asks for custom values and goes on with
-- the default specification; the third one ends with an exception.
three_setups :
    (end_of there_and_back ≡ settled (answers_of (end_of there_and_back)))
    × (run_interactive_setup env args 9 empty_disk there_and_back ≡ returned fallback empty_disk)
    × (lookup "hw_mode" (answers_of (end_of late_custom)) ≡ some (text "1"))
    × (run_interactive_setup env args 9 empty_disk late_custom ≡ returned fallback empty_disk)
    × (run_interactive_setup env args 9 empty_disk late_field ≡ raised "KeyError")
    × (wizard env (build_wizard_steps args) 9 first_answer (at 1) after_first
        ≡ settled (answers_of (end_of there_and_back)))
unfolding wizard turn build_wizard_steps next_applicable applicable prompt nothing_to_ask ask
    read_line lookup insert report needs_approx_calibration_choice assemble_hw_config
    bootstrap_calibration_factors find_matching_reference no_reference find_nearest_reference
    show_confirm_screen min_by reference_distance chosen of_built of_loaded unmatched erase reset
    try_build_custom_hw_config applicable_steps index_of passed_over prev_applicable read_confirm
    construct_hw given positive run_interactive_setup setup_result final_hw_config
three_setups = (refl, refl, refl, refl, refl, refl)

run_interactive_setup-MeetsSchema_example : MeetsSchema (SetupResult.hw_config fallback)
run_interactive_setup-MeetsSchema_example =
    run_interactive_setup-MeetsSchema env args default-MeetsSchema examples-MeetsSchema 9 empty_disk
      empty_disk there_and_back fallback three_setups.1
