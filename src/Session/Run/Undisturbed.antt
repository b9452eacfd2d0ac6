-- ===== src/Session/Run/Undisturbed.antt =====
-- Without Ctrl-C, no stream of the graph is broken off.
use autocim_agent.Prelude.{
  arith, ℕ, zero, suc, ◌≤◌, ◌≡◌, ◌≢◌, refl, sym, ◌∙◌, Option, none, some, Exc, ok, raise,
}
use autocim_agent.Prelude.Float.{Float}
use autocim_agent.State.{CimState}
use autocim_agent.Pipeline.{
  Node, planner, Next, goto, finished, interrupted, crashed, Services, step, run, Outcome, ended,
  waiting, out_of_fuel, follow,
}
use autocim_agent.Pipeline
use autocim_agent.Pipeline.Termination.{start-Terminates_from}
use autocim_agent.Session.Prompt.{Desk, Resolution, resume_with, declined, unheard}
use autocim_agent.Session.Run.{
  Snapshot, absent, complete, paused, unfinished, Streamed, to_end, to_interrupt, stopped_before,
  Input, initial, command, still_paused, stream_from, raised_at, after_step, stream_until_interrupt,
  broken_off, Closing, Setup, answer, registered, resolve, hear, session_loop, begin, seeded,
  run_session, finish,
}

-- A stream as the outcome of a run of the graph.
abbrev outcome : {F : Type 0} → Streamed F → Outcome F
outcome (to_end s) = ended s
outcome (to_interrupt s) = waiting s
outcome (stopped_before node s) = out_of_fuel
outcome (still_paused s) = out_of_fuel
outcome (raised_at node s e) = Pipeline.failed_with e

module _ {F G : Type 0} ⦃fl : Float F⦄ (services : Services F G) where
  after_step-outcome :
      (rest : Node → CimState F → Streamed F) (rest' : Node → CimState F → Outcome F) (node : Node)
      (s : CimState F) (next : Next F)
      → ((n : Node) (t : CimState F) → outcome (rest n t) ≡ rest' n t)
      → outcome (after_step rest node s next) ≡ follow rest' next
  after_step-outcome rest rest' node s (goto n t) ih = ih n t
  after_step-outcome rest rest' node s (finished t) ih = refl
  after_step-outcome rest rest' node s (interrupted t) ih = refl
  after_step-outcome rest rest' node s (crashed e) ih = refl

  -- The stream of the session and the run of the graph are the same.
  pub stream_from-run :
      (patience : ℕ) (node : Node) (s : CimState F)
      → outcome (stream_from services patience node s) ≡ run services patience node s
  unfolding stream_from run
  stream_from-run zero node s = refl
  stream_from-run (suc patience) node s =
      after_step-outcome (stream_from services patience) (run services patience) node s
        (step services node s) (stream_from-run patience)

  from_planner :
      (patience : ℕ) (s : CimState F)
      → 19 ≤ patience
      → outcome (stream_from services patience planner s) ≢ out_of_fuel
  from_planner patience s l e =
      start-Terminates_from services patience s l (sym (stream_from-run patience planner s) ∙ e)

  not_stopped :
      (patience : ℕ) (input : Input F)
      → 20 ≤ patience
      → outcome (stream_until_interrupt services patience input) ≢ out_of_fuel
  unfolding stream_until_interrupt
  not_stopped patience (initial s) l = from_planner patience s (omega (arith, l))
  not_stopped zero (command bounds s) l = absurd (omega (arith, l))
  not_stopped (suc patience) (command bounds s) l = from_planner patience _ (omega (arith, l))

module _ {S F G : Type 0} ⦃fl : Float F⦄ (setup : Setup S F G) (store : S) where
  abbrev Undisturbed : Closing S F → Type 0
  Undisturbed closing = closing.exit ≢ broken_off

  answer-Undisturbed :
      (rest : Input F → Desk → Closing S F) (s : CimState F) (desk : Desk)
      (resolved : Exc (Resolution F × Desk))
      → ((t : Input F) (after : Desk) → Undisturbed (rest t after))
      → Undisturbed (answer setup store rest s desk resolved)
  unfolding finish
  answer-Undisturbed rest s desk (raise e) ih = λ e. cc e
  answer-Undisturbed rest s desk (ok (resume_with bounds, after)) ih = ih (command bounds s) after
  answer-Undisturbed rest s desk (ok (declined, after)) ih = λ e. cc e
  answer-Undisturbed rest s desk (ok (unheard, after)) ih = λ e. cc e

  hear-Undisturbed :
      (rest : Input F → Desk → Closing S F) (desk : Desk) (streamed : Streamed F)
      → ((t : Input F) (after : Desk) → Undisturbed (rest t after))
      → outcome streamed ≢ out_of_fuel
      → Undisturbed (hear setup store rest desk streamed)
  unfolding finish
  hear-Undisturbed rest desk (to_end s) ih h = λ e. cc e
  hear-Undisturbed rest desk (to_interrupt s) ih h =
      answer-Undisturbed rest s desk (resolve setup s desk) ih
  hear-Undisturbed rest desk (stopped_before node s) ih h = absurd (h refl)
  hear-Undisturbed rest desk (still_paused s) ih h = absurd (h refl)
  hear-Undisturbed rest desk (raised_at node s e) ih h = λ e. cc e

  module _ (quiet : (round : ℕ) → 20 ≤ setup.ctrl_c round) where
    session_loop-Undisturbed :
        (rounds round : ℕ) (s : Input F) (desk : Desk)
        → Undisturbed (session_loop setup store rounds round s desk)
    unfolding session_loop
    session_loop-Undisturbed zero round s desk = λ e. cc e
    session_loop-Undisturbed (suc rounds) round s desk =
        hear-Undisturbed (session_loop setup store rounds (suc round)) desk
          (stream_until_interrupt (registered setup) (setup.ctrl_c round) s)
          (session_loop-Undisturbed rounds (suc round))
          (not_stopped (registered setup) (setup.ctrl_c round) s (quiet round))

    begin-Undisturbed :
        (rounds : ℕ) (desk : Desk) (start_state : Exc (Option (CimState F)))
        → Undisturbed (begin setup store (session_loop setup store rounds 0) desk start_state)
    begin-Undisturbed rounds desk (raise e) = λ e. cc e
    begin-Undisturbed rounds desk (ok none) = λ e. cc e
    begin-Undisturbed rounds desk (ok (some s)) = session_loop-Undisturbed rounds 0 (initial s) desk

    -- If Ctrl-C never comes within 20 nodes of a start or a resume, no session is broken off.
    pub run_session-Undisturbed :
        (rounds : ℕ) (snapshot : Snapshot F) (desk : Desk)
        → Closing.exit (run_session setup store rounds snapshot desk) ≢ broken_off
    unfolding run_session
    run_session-Undisturbed rounds absent desk = begin-Undisturbed rounds desk (seeded setup store)
    run_session-Undisturbed rounds (complete s) desk = λ e. cc e
    run_session-Undisturbed rounds (paused s) desk =
        answer-Undisturbed (session_loop setup store rounds 0) s desk (resolve setup s desk)
          (session_loop-Undisturbed rounds 0)
    run_session-Undisturbed rounds (unfinished node s) desk = λ e. cc e
