-- ===== src/Wizard/Run/Ends.antt =====
-- The loop of the interactive setup comes to an end: every turn reads a line.
use autocim_agent.Prelude.{
  ℕ, zero, suc, ◌≤◌, ◌<◌, ◌≡◌, ◌≢◌, refl, arith, String, str_eq, Bool, true, false, Option, none,
  some, List, [], ◌∷◌, get_elem?, length, if◌then◌else◌, Exc, ok, raise,
}
use autocim_agent.Prelude.Float.{Float}
use autocim_agent.Wizard.Prompts.{
  Line, WizardEnv, Answers, Asked, got, stepped_back, end_of_input, cancelled, exited,
  custom_field_names, applicable, prompt,
}
use autocim_agent.Wizard.Steps.{
  WizardStep, Position, before_first, at, next_applicable, applicable_steps, not_understood,
  proceed, one_back, refresh, jump, Confirmed, chosen, no_more_input, interrupted,
}
use autocim_agent.Wizard.Steps.Lands.{next_applicable-lands}
use autocim_agent.Wizard.Run.{
  Turn, go, settle, no_setup, exit, crash, try_build_custom_hw_config, validated, first_custom,
  confirm_screen, sequential, jumped, jump_to, acted, turn_at, turn, End, out_of_turns, after_turn,
  wizard, enter, last_custom_key, is_custom_field,
}
use autocim_agent.Wizard.Steps.Reads.{
  Reads, Confirms, show_confirm_screen-Confirms, prompt-Reads, prompt-keeps,
}

-- Fewer lines are left, if any are.
abbrev Goes : {F : Type 0} → ℕ → Turn F → Type 0
Goes n (go answers position lines) = length lines < n
Goes n (settle answers) = Unit
Goes n no_setup = Unit
Goes n exit = Unit
Goes n (crash e) = Unit

module _ {F : Type 0} where
  Goes-mono : (m n : ℕ) (t : Turn F) → m ≤ n → Goes m t → Goes n t
  Goes-mono m n (go answers position lines) l r = omega (arith, l, r)
  Goes-mono m n (settle answers) l r = tt
  Goes-mono m n no_setup l r = tt
  Goes-mono m n exit l r = tt
  Goes-mono m n (crash e) l r = tt

module _ {F : Type 0} ⦃fl : Float F⦄ (env : WizardEnv F) where
  validated-Goes :
      (n : ℕ) (good bad : Position) (lines : List Line) (m : Exc (Answers F × List String))
      → length lines < n
      → Goes n (validated env good bad lines m)
  validated-Goes n good bad lines (raise e) l = tt
  validated-Goes n good bad lines (ok (answers, [])) l = l
  validated-Goes n good bad lines (ok (answers, field ∷ fields)) l = l

  either-Goes :
      (n : ℕ) (b : Bool) (s t : Turn F) → Goes n s → Goes n t → Goes n (if b then s else t)
  either-Goes n true s t p q = p
  either-Goes n false s t p q = q

  module _ (steps : List WizardStep) where
    sequential-Goes :
        (n i : ℕ) (step : WizardStep) (answers : Answers F) (asked : Asked F)
        → Reads n asked
        → Goes n (sequential env steps i step answers asked)
    sequential-Goes n i step answers (got v lines) r =
        either-Goes n (str_eq step.key last_custom_key) _ _
          (validated-Goes n (at (suc i)) (first_custom env steps) lines
            (try_build_custom_hw_config env (enter env step v answers)) r)
          r
    sequential-Goes n i step answers (stepped_back lines) r = r
    sequential-Goes n i step answers end_of_input r = tt
    sequential-Goes n i step answers cancelled r = tt
    sequential-Goes n i step answers exited r = tt

    jumped-Goes :
        (n : ℕ) (step : WizardStep) (answers : Answers F) (asked : Asked F)
        → Reads n asked
        → Goes n (jumped env steps step answers asked)
    jumped-Goes n step answers (got v lines) r =
        either-Goes n (is_custom_field step.key custom_field_names) _ _
          (validated-Goes n (confirm_screen env steps) (first_custom env steps) lines
            (try_build_custom_hw_config env (enter env step v answers)) r)
          r
    jumped-Goes n step answers (stepped_back lines) r = r
    jumped-Goes n step answers end_of_input r = tt
    jumped-Goes n step answers cancelled r = tt
    jumped-Goes n step answers exited r = tt

    jump_to-Goes :
        (target_step : Option WizardStep) (answers : Answers F) (lines : List Line)
        → Goes (suc (length lines)) (jump_to env steps target_step answers lines)
    jump_to-Goes none answers lines = tt
    jump_to-Goes (some step) answers lines =
        jumped-Goes (suc (length lines)) step answers (prompt env step.kind step.key answers lines)
          (prompt-keeps env step.kind step.key answers lines)

    acted-Goes :
        (n : ℕ) (answers : Answers F) (confirmed : Confirmed)
        → Confirms n confirmed
        → Goes n (acted env steps answers confirmed)
    acted-Goes n answers (chosen proceed lines) r = tt
    acted-Goes n answers (chosen one_back lines) r = r
    acted-Goes n answers (chosen refresh lines) r = r
    acted-Goes n answers (chosen not_understood lines) r = r
    acted-Goes n answers (chosen (jump index) lines) r =
        Goes-mono (suc (length lines)) n (jump_to env steps (get_elem? steps index) answers lines)
          (omega (arith, r)) (jump_to-Goes (get_elem? steps index) answers lines)
    acted-Goes n answers no_more_input r = tt
    acted-Goes n answers interrupted r = tt

    turn_at-Goes :
        (i : ℕ) (found : Option WizardStep) (answers : Answers F) (lines : List Line)
        → ((step : WizardStep) → found ≡ some step → applicable env step.kind answers ≡ true)
        → Goes (length lines) (turn_at env steps i found answers lines)
    turn_at-Goes i none answers lines h =
        acted-Goes (length lines) answers _
          (show_confirm_screen-Confirms env (applicable_steps env answers 0 steps) lines)
    turn_at-Goes i (some step) answers lines h =
        sequential-Goes (length lines) i step answers (prompt env step.kind step.key answers lines)
          (prompt-Reads env step.kind step.key answers lines (h step refl))

    turn-Goes :
        (answers : Answers F) (position : Position) (lines : List Line)
        → Goes (length lines) (turn env steps answers position lines)
    unfolding turn
    turn-Goes answers before_first lines = tt
    turn-Goes answers (at index) lines =
        let i = next_applicable env steps answers index in
        turn_at-Goes i (get_elem? steps i) answers lines
          (next_applicable-lands env answers steps index)

    after_turn-Ends :
        (n : ℕ) (rest : Answers F → Position → List Line → End F) (t : Turn F)
        → Goes n t
        → ((answers : Answers F) (position : Position) (lines : List Line)
            → length lines < n
            → rest answers position lines ≢ out_of_turns)
        → after_turn rest t ≢ out_of_turns
    after_turn-Ends n rest (go answers position lines) g h = h answers position lines g
    after_turn-Ends n rest (settle answers) g h = λ e. cc e
    after_turn-Ends n rest no_setup g h = λ e. cc e
    after_turn-Ends n rest exit g h = λ e. cc e
    after_turn-Ends n rest (crash e) g h = λ e. cc e

    -- From any answers and any position, the setup comes to an end within one turn more than there are
    -- lines to read: every turn reads a line, is the last one, or both.
    pub wizard-Ends :
        (turns : ℕ) (answers : Answers F) (position : Position) (lines : List Line)
        → length lines < turns
        → wizard env steps turns answers position lines ≢ out_of_turns
    unfolding wizard
    wizard-Ends zero answers position lines l = absurd (omega (arith, l))
    wizard-Ends (suc turns) answers position lines l =
        after_turn-Ends (length lines) (wizard env steps turns)
          (turn env steps answers position lines) (turn-Goes answers position lines)
          (λ a p rest l'. wizard-Ends turns a p rest (omega (arith, l, l')))
