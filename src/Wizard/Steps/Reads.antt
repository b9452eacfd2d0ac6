-- ===== src/Wizard/Steps/Reads.antt =====
-- Every prompt, and the confirm screen, reads a line.
use autocim_agent.Prelude.{
  ℕ, suc, ◌≤◌, ◌<◌, ◌≡◌, refl, arith, String, Bool, true, false, Option, none, some, List, [], ◌∷◌,
  length, if◌then◌else◌,
}
use autocim_agent.Prelude.Float.{Float}
use autocim_agent.Schemas.{HwConfig}
use autocim_agent.Calibration.{find_nearest_reference}
use autocim_agent.Wizard.{Value}
use autocim_agent.Wizard.Prompts.{
  Line, typed, ctrl_c, WizardEnv, Answers, Kind, hw_mode, text_field, int_field, float_field,
  example_choice, approx_calibration, target, dashboard_yn, save_yn, Heard, again, back, answer,
  leave, Asked, got, stepped_back, end_of_input, cancelled, exited, assemble_hw_config, unmatched,
  needs_approx_calibration_choice, applicable, ask, after_heard, no_reference, nothing_to_ask,
  prompt,
}
use autocim_agent.Wizard.Steps.{
  Action, not_understood, proceed, one_back, refresh, jump, Confirmed, chosen, no_more_input,
  interrupted, read_confirm, after_confirm, show_confirm_screen,
}

-- Fewer lines are left, if any are.
abbrev pub Reads : {F : Type 0} → ℕ → Asked F → Type 0
Reads n (got v lines) = length lines < n
Reads n (stepped_back lines) = length lines < n
Reads n end_of_input = Unit
Reads n cancelled = Unit
Reads n exited = Unit

abbrev pub Confirms : ℕ → Confirmed → Type 0
Confirms n (chosen action lines) = length lines < n
Confirms n no_more_input = Unit
Confirms n interrupted = Unit

module _ {F : Type 0} where
  Reads-mono : (m n : ℕ) (asked : Asked F) → m ≤ n → Reads m asked → Reads n asked
  Reads-mono m n (got v lines) l r = omega (arith, l, r)
  Reads-mono m n (stepped_back lines) l r = omega (arith, l, r)
  Reads-mono m n end_of_input l r = tt
  Reads-mono m n cancelled l r = tt
  Reads-mono m n exited l r = tt

Confirms-mono : (m n : ℕ) (c : Confirmed) → m ≤ n → Confirms m c → Confirms n c
Confirms-mono m n (chosen action lines) l r = omega (arith, l, r)
Confirms-mono m n no_more_input l r = tt
Confirms-mono m n interrupted l r = tt

module _ {F : Type 0} where
  after_heard-Reads :
      (rest : Asked F) (lines : List Line) (heard : Heard F)
      → Reads (length lines) rest
      → Reads (suc (length lines)) (after_heard rest lines heard)
  after_heard-Reads rest lines again r = Reads-mono (length lines) _ rest (omega arith) r
  after_heard-Reads rest lines back r = omega arith
  after_heard-Reads rest lines (answer v) r = omega arith
  after_heard-Reads rest lines leave r = tt

after_confirm-Confirms :
    (rest : Confirmed) (lines : List Line) (action : Action)
    → Confirms (length lines) rest
    → Confirms (suc (length lines)) (after_confirm rest lines action)
after_confirm-Confirms rest lines not_understood r =
    Confirms-mono (length lines) _ rest (omega arith) r
after_confirm-Confirms rest lines proceed r = omega arith
after_confirm-Confirms rest lines one_back r = omega arith
after_confirm-Confirms rest lines refresh r = omega arith
after_confirm-Confirms rest lines (jump index) r = omega arith

module _ {F : Type 0} (env : WizardEnv F) where
  ask-Reads :
      (read : String → Heard F) (lines : List Line) → Reads (length lines) (ask env read lines)
  unfolding ask
  ask-Reads read [] = tt
  ask-Reads read (ctrl_c ∷ lines) = tt
  ask-Reads read (typed raw ∷ lines) =
      after_heard-Reads (ask env read lines) lines (read (env.terminal.strip raw))
        (ask-Reads read lines)

  pub show_confirm_screen-Confirms :
      (indices : List ℕ) (lines : List Line)
      → Confirms (length lines) (show_confirm_screen env indices lines)
  unfolding show_confirm_screen
  show_confirm_screen-Confirms indices [] = tt
  show_confirm_screen-Confirms indices (ctrl_c ∷ lines) = tt
  show_confirm_screen-Confirms indices (typed raw ∷ lines) =
      after_confirm-Confirms (show_confirm_screen env indices lines) lines
        (read_confirm env indices (env.terminal.lower (env.terminal.strip raw)))
        (show_confirm_screen-Confirms indices lines)

module _ {F : Type 0} ⦃fl : Float F⦄ where
  reference_known : (hw : Option (HwConfig F)) → unmatched hw ≡ true → no_reference hw ≡ false
  unfolding unmatched no_reference find_nearest_reference
  reference_known none h = cc h
  reference_known (some hw) h = refl

module _ {F : Type 0} ⦃fl : Float F⦄ (env : WizardEnv F) where
  -- Where the calibration is asked about, there is a reference.
  asked_about :
      (kind : Kind) (answers : Answers F)
      → applicable env kind answers ≡ true
      → nothing_to_ask env kind answers ≡ false
  unfolding applicable nothing_to_ask needs_approx_calibration_choice
  asked_about approx_calibration answers h = reference_known (assemble_hw_config env answers) h
  asked_about hw_mode answers h = refl
  asked_about text_field answers h = refl
  asked_about int_field answers h = refl
  asked_about float_field answers h = refl
  asked_about example_choice answers h = refl
  asked_about target answers h = refl
  asked_about dashboard_yn answers h = refl
  asked_about save_yn answers h = refl

  -- A prompt of a step that applies reads a line, and no prompt adds one.
  pub prompt-Reads :
      (kind : Kind) (key : String) (answers : Answers F) (lines : List Line)
      → applicable env kind answers ≡ true
      → Reads (length lines) (prompt env kind key answers lines)
  unfolding prompt
  prompt-Reads kind key answers lines h = rw (asked_about kind answers h) (ask-Reads env _ lines)

  asked_or_not :
      (b : Bool) (v : Value F) (lines : List Line) (asked : Asked F)
      → Reads (length lines) asked
      → Reads (suc (length lines)) (if b then got v lines else asked)
  asked_or_not true v lines asked r = omega arith
  asked_or_not false v lines asked r = Reads-mono (length lines) _ asked (omega arith) r

  pub prompt-keeps :
      (kind : Kind) (key : String) (answers : Answers F) (lines : List Line)
      → Reads (suc (length lines)) (prompt env kind key answers lines)
  unfolding prompt
  prompt-keeps kind key answers lines =
      asked_or_not (nothing_to_ask env kind answers) _ lines _ (ask-Reads env _ lines)
