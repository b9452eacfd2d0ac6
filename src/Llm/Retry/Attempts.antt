-- ===== src/Llm/Retry/Attempts.antt =====
-- How many attempts a call makes, and what ends it.
use autocim_agent.Prelude.{
  ℕ, zero, suc, ◌+◌, ◌≤◌, ◌≡◌, ◌⊎◌, inl, inr, Bool-cases, true, false, Option, none, some, List, [],
  ◌∷◌, ◌++◌, length, length-append, arith, refl, ap, ◌∙◌,
}
use autocim_agent.Prelude.Int.{pos_part}
use autocim_agent.Prelude.Float.{Float}
use autocim_agent.State.{LlmCallRecord}
use autocim_agent.Llm.{LlmEnv}
use autocim_agent.Llm.Usage.{Response}
use autocim_agent.Llm.Failure.{Failure}
use autocim_agent.Llm.Retry.{
  Reply, response, error, CallEnd, returned, call_failed, CallRun, CallSettings, is_retryable,
  retry_loop, invoke_with_retry, backoff_delay_seconds,
}

-- The record of a call's end.
abbrev pub record_of : {F : Type 0} → CallEnd F → LlmCallRecord F
record_of (returned r u) = u
record_of (call_failed u) = u

module _ {F : Type 0} where
  -- Every attempt but the last is followed by one delay.
  abbrev pub Paced : ℕ → CallRun F → Type 0
  Paced limit run =
      (suc (length run.sleeps) ≡ (record_of run.end).attempts)
      × ((record_of run.end).attempts ≤ limit)

module _ {F : Type 0} (env : LlmEnv F) (invoke : ℕ → Reply F) where
  -- What ended the call: the last attempt's response, or its error, which is not retried or came
  -- with no attempt left of the `limit`.
  abbrev pub EndsWith : ℕ → CallEnd F → Type 0
  EndsWith limit (returned r u) = (invoke u.attempts ≡ response r) × (u.succeeded ≡ true)
  EndsWith limit (call_failed u) =
      (u.succeeded ≡ false)
      × ((e : Failure F) × (invoke u.attempts ≡ error e)
          × ((u.attempts ≡ limit) ⊎ (is_retryable env e ≡ false)))

module _ {F : Type 0} ⦃fl : Float F⦄ (env : LlmEnv F) (call : CallSettings F)
    (invoke : ℕ → Reply F) where
  abbrev Ends : ℕ → CallRun F → Type 0
  Ends limit run = Paced limit run × EndsWith env invoke limit run.end

  Reply-cases :
      (reply : Reply F)
      → ((r : Response F) × (reply ≡ response r)) ⊎ ((e : Failure F) × (reply ≡ error e))
  Reply-cases (response r) = inl (r, refl)
  Reply-cases (error e) = inr (e, refl)

  loop-Ends :
      (limit remaining attempt : ℕ) (last_exc : Option (Failure F)) (sleeps : List F)
      → length sleeps ≡ attempt
      → attempt + suc remaining ≡ limit
      → Ends limit (retry_loop env call invoke (suc remaining) attempt last_exc sleeps)
  unfolding retry_loop
  loop-Ends limit zero attempt last_exc sleeps h l = elim (Reply-cases (invoke (suc attempt))) [
    | inl (r, q) ↦ rw (retry_loop, q) ((ap suc h, omega arith), (q, refl))
    | inr (e, q) ↦ rw (retry_loop, q) ((ap suc h, omega arith), (refl, (e, q, inl (omega arith))))
  ]
  loop-Ends limit (suc remaining) attempt last_exc sleeps h l =
      elim (Reply-cases (invoke (suc attempt))) [
        | inl (r, q) ↦ rw (retry_loop, q) ((ap suc h, omega arith), (q, refl))
        | inr (e, q) ↦ elim (Bool-cases (is_retryable env e)) [
          | inl y ↦
              rw (retry_loop, q, y)
                (loop-Ends limit remaining (suc attempt) (some e)
                  (sleeps ++ (backoff_delay_seconds env call e (suc attempt) ∷ []))
                  (length-append sleeps _ ∙ omega (arith, h)) (omega arith))
          | inr n ↦ rw (retry_loop, q, n) ((ap suc h, omega arith), (refl, (e, q, inr n)))
        ]
      ]

  -- A call that may make at least one attempt makes at most `max_retries`, with one delay between
  -- two of them. It returns the last attempt's response, or fails with the last attempt's error,
  -- which then is not one to retry or has used up the attempts.
  pub invoke_with_retry-ends :
      (n : ℕ)
      → pos_part call.max_retries ≡ suc n
      → Paced (pos_part call.max_retries) (invoke_with_retry env call invoke)
        × EndsWith env invoke (pos_part call.max_retries) (invoke_with_retry env call invoke).end
  unfolding invoke_with_retry
  invoke_with_retry-ends n h = rw (h) (loop-Ends (suc n) n 0 none [] refl (omega arith))
