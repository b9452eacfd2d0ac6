-- ===== src/Wizard/Steps/Lands.antt =====
-- Where the moves between the steps land.
use autocim_agent.Prelude.{
  ℕ, zero, suc, ◌+◌, ◌≡◌, refl, ◌∙◌, ap, subst, arith, Bool, true, false, some, List, [], ◌∷◌,
  get_elem?, drop, if◌then◌else◌,
}
use autocim_agent.Prelude.Float.{Float}
use autocim_agent.Wizard.Prompts.{WizardEnv, Answers, applicable}
use autocim_agent.Wizard.Steps.{WizardStep, passed_over, next_applicable}

get_elem?-drop :
    {A : Type 0} (xs : List A) (n k : ℕ) → get_elem? (drop n xs) k ≡ get_elem? xs (n + k)
get_elem?-drop xs zero k = let same : k ≡ 0 + k = omega arith in ap (get_elem? xs) same
get_elem?-drop [] (suc n) k = refl
get_elem?-drop (x ∷ xs) (suc n) k =
    let same : suc (n + k) ≡ suc n + k = omega arith in
    get_elem?-drop xs n k ∙ ap (get_elem? (x ∷ xs)) same

some-same : {A : Type 0} (a b : A) → some a ≡ some b → a ≡ b
some-same a b h = cc h

module _ {F : Type 0} ⦃fl : Float F⦄ (env : WizardEnv F) (answers : Answers F) where
  lands_case :
      (b : Bool) (s : WizardStep) (steps : List WizardStep) (rest : ℕ) (step : WizardStep)
      → applicable env s.kind answers ≡ b
      → (get_elem? steps rest ≡ some step → applicable env step.kind answers ≡ true)
      → get_elem? (s ∷ steps) (if b then 0 else suc rest) ≡ some step
      → applicable env step.kind answers ≡ true
  lands_case true s steps rest step e ih h =
      subst (λ t. applicable env (WizardStep.kind t) answers ≡ true) (some-same s step h) e
  lands_case false s steps rest step e ih h = ih h

  passed_over-lands :
      (steps : List WizardStep) (step : WizardStep)
      → get_elem? steps (passed_over env answers steps) ≡ some step
      → applicable env step.kind answers ≡ true
  unfolding passed_over
  passed_over-lands [] step h = cc h
  passed_over-lands (s ∷ steps) step h =
      lands_case (applicable env s.kind answers) s steps (passed_over env answers steps) step refl
        (passed_over-lands steps step) h

  -- The step that the setup moves on to applies.
  pub next_applicable-lands :
      (steps : List WizardStep) (index : ℕ) (step : WizardStep)
      → get_elem? steps (next_applicable env steps answers index) ≡ some step
      → applicable env step.kind answers ≡ true
  unfolding next_applicable
  next_applicable-lands steps index step h =
      passed_over-lands (drop index steps) step
        (get_elem?-drop steps index (passed_over env answers (drop index steps)) ∙ h)
