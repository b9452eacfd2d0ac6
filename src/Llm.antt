-- ===== src/Llm.antt =====
-- llm.py: the budget of a run; the retries around a call of the model are in Llm/Retry, the tokens
-- and the cost of a response in Llm/Usage. The provider, the environment variables and the clock
-- are parameters.
pub mod Budget
pub mod Model
pub mod Failure
pub mod Retry
pub mod Usage
use autocim_agent.Prelude.{
  ℕ, ◌+◌, String, str_eq, Bool, true, false, Option, none, some, List, [], ◌∷◌, leb, get_or,
  if◌then◌else◌,
}
use autocim_agent.Prelude.Int.{ℤ, pos, negsuc}
use autocim_agent.Prelude.Dict.{Dict, lookup}
use autocim_agent.Prelude.Float.{Float, sum_f}
use autocim_agent.State.{LlmCallRecord}

-- `os.environ`, Python's `float(text)` and `int(text)` (`none` is a `ValueError`), `str.lower`, the
-- test `marker in text`, `random.random`, and the rendering of the budget's reasons.
pub record LlmEnv (F : Type 0) : Type 0 where
  pub variables : Dict String
  pub parse_float : String → Option F
  pub parse_int : String → Option ℤ
  pub lower : String → String
  pub occurs_in : String → String → Bool
  -- The jitter of the attempt with this number.
  pub random : ℕ → F
  -- The milliseconds since the call began, when the attempt with this number has ended.
  pub elapsed_ms : ℕ → F
  pub show_cost : F → F → String
  pub show_tokens : ℕ → ℤ → String

pub record BudgetStatus : Type 0 where
  pub exceeded : Bool
  pub reason : Option String

abbrev pub within_budget : BudgetStatus
within_budget = record { exceeded = false; reason = none }

abbrev pub over_budget : String → BudgetStatus
over_budget reason = record { exceeded = true; reason = some reason }

-- `raw = os.environ.get(name)`, with an empty text read like a missing one.
abbrev pub variable : {F : Type 0} → LlmEnv F → String → Option String
variable env name = elim (lookup name env.variables) [
  | none ↦ none
  | some raw ↦ if str_eq raw "" then none else some raw
]

-- `n >= i`
abbrev pub reaches : ℕ → ℤ → Bool
reaches n (pos k) = leb k n
reaches n (negsuc k) = true

module _ {F : Type 0} ⦃fl : Float F⦄ (env : LlmEnv F) where
  -- `sum(u["estimated_cost_usd"] for u in llm_usage if … is not None)`
  abbrev pub costs : List (LlmCallRecord F) → List F
  costs [] = []
  costs (u ∷ usage) = elim u.estimated_cost_usd [ none ↦ costs usage | some c ↦ c ∷ costs usage ]

  abbrev pub total_cost : List (LlmCallRecord F) → F
  total_cost usage = sum_f (costs usage)

  unfoldable pub total_tokens : List (LlmCallRecord F) → ℕ
  total_tokens [] = 0
  total_tokens (u ∷ usage) = get_or u.total_tokens 0 + total_tokens usage

  -- The cap of a variable, if it is set and is a number.
  abbrev pub max_cost : Option F
  max_cost = elim (variable env "AUTOCIM_LLM_MAX_TOTAL_COST_USD") [
    | none ↦ none
    | some raw ↦ env.parse_float raw
  ]

  abbrev pub max_tokens : Option ℤ
  max_tokens = elim (variable env "AUTOCIM_LLM_MAX_TOTAL_TOKENS") [
    | none ↦ none
    | some raw ↦ env.parse_int raw
  ]

  check_tokens : ℕ → Option ℤ → BudgetStatus
  check_tokens total none = within_budget
  check_tokens total (some cap) =
      if reaches total cap then over_budget (env.show_tokens total cap) else within_budget

  check_caps : List (LlmCallRecord F) → Option F → Option ℤ → BudgetStatus
  check_caps usage none token_cap = check_tokens (total_tokens usage) token_cap
  check_caps usage (some cap) token_cap =
      if fl.le cap (total_cost usage)
      then over_budget (env.show_cost (total_cost usage) cap)
      else check_tokens (total_tokens usage) token_cap

  unfoldable pub check_budget : List (LlmCallRecord F) → BudgetStatus
  unfolding check_caps check_tokens
  check_budget usage = check_caps usage max_cost max_tokens

module _ {F : Type 0} (env : LlmEnv F) where
  -- `_int_env` and `_float_env`
  unfoldable pub int_env : String → ℤ → ℤ
  int_env name default = elim (variable env name) [
    | none ↦ default
    | some raw ↦ get_or (env.parse_int raw) default
  ]

  unfoldable pub float_env : String → F → F
  float_env name default = elim (variable env name) [
    | none ↦ default
    | some raw ↦ get_or (env.parse_float raw) default
  ]
