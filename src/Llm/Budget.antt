-- ===== src/Llm/Budget.antt =====
-- When the budget of a run is exceeded.
use autocim_agent.Prelude.{◌≡◌, Bool, false, ◌||◌, Option, none, some, List, arith}
use autocim_agent.Prelude.Int.{ℤ}
use autocim_agent.Prelude.Float.{Float}
use autocim_agent.State.{LlmCallRecord}
use autocim_agent.Llm.{
  LlmEnv, check_budget, check_caps, check_tokens, max_cost, max_tokens, total_cost, total_tokens,
  reaches,
}

-- There is a cap, and it is reached.
abbrev pub reached : {A : Type 0} → Option A → (A → Bool) → Bool
reached none test = false
reached (some cap) test = test cap

module _ {F : Type 0} ⦃fl : Float F⦄ (env : LlmEnv F) (usage : List (LlmCallRecord F)) where
  check_caps-exceeded :
      (cost_cap : Option F) (token_cap : Option ℤ)
      → (check_caps env usage cost_cap token_cap).exceeded ≡ (
          reached cost_cap (λ cap. fl.le cap (total_cost env usage))
          || reached token_cap (λ cap. reaches (total_tokens env usage) cap))
  unfolding check_caps check_tokens
  check_caps-exceeded none none = ground arith
  check_caps-exceeded none (some t) = ground arith
  check_caps-exceeded (some c) none = ground arith
  check_caps-exceeded (some c) (some t) = ground arith

  -- The planner is told that the budget is exceeded exactly when the cost estimated for the run's
  -- calls has reached a cap on the cost that is set and is a number, or their tokens have reached
  -- such a cap on the tokens; so never when neither cap is set.
  pub check_budget-exceeded : (check_budget env usage).exceeded ≡ (
      reached (max_cost env) (λ cap. fl.le cap (total_cost env usage))
      || reached (max_tokens env) (λ cap. reaches (total_tokens env usage) cap))
  unfolding check_budget
  check_budget-exceeded = check_caps-exceeded (max_cost env) (max_tokens env)
