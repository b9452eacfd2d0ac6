-- ===== src/Llm/Model.antt =====
-- llm.py, `resolve_planner_model`: which model the planner asks.
use autocim_agent.Prelude.{
  String, Option, none, some, is_some, ◌≡◌, ◌⊎◌, inl, inr, refl, if◌then◌else◌, ◌∷◌, [],
}
use autocim_agent.Prelude.Dict.{Dict, lookup}
use autocim_agent.Llm.{LlmEnv, variable}

abbrev pub default_local_model : String
default_local_model = "ollama:qwen2.5:7b"

-- `_PROVIDER_API_KEY_ENV`
unfoldable pub provider_api_key_env : Dict String
provider_api_key_env =
    ("anthropic", "ANTHROPIC_API_KEY")
    ∷ ("openai", "OPENAI_API_KEY")
    ∷ ("groq", "GROQ_API_KEY")
    ∷ ("google_genai", "GOOGLE_API_KEY")
    ∷ []

-- `model.split(":", 1)[0]`, and the text of the reason for the fallback.
pub record ModelTexts : Type 0 where
  pub provider_of : String → String
  pub missing_key : String → String → String

module _ {F : Type 0} (env : LlmEnv F) (texts : ModelTexts) where
  -- The key of a cloud provider that is not set.
  unfoldable pub key_missing : String → Option String
  key_missing model = elim (lookup (texts.provider_of model) provider_api_key_env) [
    | none ↦ none
    | some key ↦ if is_some (variable env key) then none else some key
  ]

  -- The configured model, given the key it lacks.
  abbrev pub usable_or_local : String → Option String → String × Option String
  usable_or_local model none = (model, none)
  usable_or_local model (some key) = (default_local_model, some (texts.missing_key model key))

  abbrev pub configured_or_local : Option String → String × Option String
  configured_or_local none = (default_local_model, none)
  configured_or_local (some model) = usable_or_local model (key_missing model)

  unfoldable pub resolve_planner_model : String × Option String
  resolve_planner_model = configured_or_local (variable env "AUTOCIM_PLANNER_MODEL")

  abbrev Usable : String × Option String → Type 0
  Usable (model, reason) =
      (model ≡ default_local_model) ⊎ ((key_missing model ≡ none) × (reason ≡ none))

  usable_or_local-Usable :
      (model : String) (key : Option String)
      → key_missing model ≡ key
      → Usable (usable_or_local model key)
  usable_or_local-Usable model none h = inr (h, refl)
  usable_or_local-Usable model (some key) h = inl refl

  configured_or_local-Usable :
      (configured : Option String) → Usable (configured_or_local configured)
  configured_or_local-Usable none = inl refl
  configured_or_local-Usable (some model) = usable_or_local-Usable model (key_missing model) refl

  -- The model that is resolved is the local one, or no key of its provider is missing.
  resolve_planner_model-Usable : Usable resolve_planner_model
  unfolding resolve_planner_model
  resolve_planner_model-Usable = configured_or_local-Usable (variable env "AUTOCIM_PLANNER_MODEL")
