-- ===== src/Llm/Failure.antt =====
-- llm.py, `_status_code_of` and `_retry_after_seconds`: what a provider's exception says of itself.
use autocim_agent.Prelude.{suc, String, Option, none, some}
use autocim_agent.Prelude.Int.{ℤ, pos, negsuc}
use autocim_agent.Prelude.Float.{Float}

-- An attribute: absent or None; an int; or another value, with what `float(value)` makes of it, where
-- `none` is a TypeError or a ValueError.
pub data Attribute (F : Type 0) : Type 0 where
  missing : Attribute F
  integer : ℤ → Attribute F
  other_value : Option F → Attribute F

-- The `response` of an exception: its status code, and the header "retry-after", `missing` also where
-- there are no headers or they have no `get`.
pub record ErrorResponse (F : Type 0) : Type 0 where
  pub status_code : Attribute F
  pub retry_after : Attribute F

-- An exception of the provider: its type's name, its text, and its attributes.
pub record Failure (F : Type 0) : Type 0 where
  pub name : String
  pub message : String
  pub status_code : Attribute F
  pub code : Attribute F
  pub retry_after : Attribute F
  pub retry_after_seconds : Attribute F
  pub response : Option (ErrorResponse F)

module _ {F : Type 0} where
  -- `value if isinstance(value, int)`, and else what is looked at next.
  abbrev pub int_or : Option ℤ → Attribute F → Option ℤ
  int_or next missing = next
  int_or next (integer code) = some code
  int_or next (other_value x) = next

  abbrev pub code_of_response : Option (ErrorResponse F) → Option ℤ
  code_of_response none = none
  code_of_response (some response) = int_or none response.status_code

  unfoldable pub status_code_of : Failure F → Option ℤ
  status_code_of e = int_or (int_or (code_of_response e.response) e.code) e.status_code

module _ {F : Type 0} ⦃fl : Float F⦄ where
  -- `float(value)` of a whole number
  abbrev pub float_of : ℤ → F
  float_of (pos n) = fl.of_nat n
  float_of (negsuc n) = fl.neg (fl.of_nat (suc n))

  -- `float(value)`, and else what is looked at next.
  abbrev pub float_or : Option F → Attribute F → Option F
  float_or next missing = next
  float_or next (integer n) = some (float_of n)
  float_or next (other_value none) = next
  float_or next (other_value (some x)) = some x

  abbrev pub delay_of_response : Option (ErrorResponse F) → Option F
  delay_of_response none = none
  delay_of_response (some response) = float_or none response.retry_after

  unfoldable pub retry_after_seconds : Failure F → Option F
  retry_after_seconds e =
      float_or (float_or (delay_of_response e.response) e.retry_after_seconds) e.retry_after
