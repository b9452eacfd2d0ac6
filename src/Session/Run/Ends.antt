-- ===== src/Session/Run/Ends.antt =====
-- A session comes to an exit: the researcher's lines, or the rounds of the rule that answers in
-- their place, run out; and without Ctrl-C no stream of the graph is broken off.
use autocim_agent.Prelude.{
  ℕ, zero, suc, ◌≤◌, ◌<◌, ◌≡◌, ◌≢◌, refl, ◌∙◌, arith, Option, none, some, Exc, ok, raise,
}
use autocim_agent.Prelude.Float.{Float}
use autocim_agent.State.{CimState}
use autocim_agent.Session.Prompt.{Desk, Resolution, resume_with, declined, unheard}
use autocim_agent.Session.Prompt.Offered.{patience, Spent, resolve_override-Spent}
use autocim_agent.Session.Run.{
  Snapshot, absent, complete, paused, unfinished, Streamed, to_end, to_interrupt, stopped_before,
  still_paused, Input, initial, command, raised_at, stream_until_interrupt, out_of_rounds, Closing,
  Setup, answer, registered, resolve, hear, session_loop, begin, seeded, run_session, finish,
}

module _ {S F G : Type 0} ⦃fl : Float F⦄ (setup : Setup S F G) (store : S) where
  -- The session has come to an exit, and at most `cap` rounds have been resolved without a human.
  abbrev Ended : ℕ → Closing S F → Type 0
  Ended cap closing = (closing.exit ≢ out_of_rounds) × (closing.desk.auto_hitl_rounds_used ≤ cap)

  -- How the rest of a session is known to end, given a bound on the patience that is left.
  abbrev RestEnds : ℕ → ℕ → (Input F → Desk → Closing S F) → Type 0
  RestEnds cap bound rest =
      (s : Input F) (desk : Desk)
      → patience desk < bound
      → desk.auto_hitl_rounds_used ≤ cap
      → desk.auto_hitl_max_rounds ≡ cap
      → Ended cap (rest s desk)

  answer-Ended :
      (cap : ℕ) (rest : Input F → Desk → Closing S F) (s : CimState F) (desk : Desk)
      (resolved : Exc (Resolution F × Desk))
      → RestEnds cap (patience desk) rest
      → desk.auto_hitl_rounds_used ≤ cap
      → desk.auto_hitl_max_rounds ≡ cap
      → ((out : Resolution F × Desk) → resolved ≡ ok out → Spent desk out)
      → Ended cap (answer setup store rest s desk resolved)
  unfolding finish
  answer-Ended cap rest s desk (raise e) ih u m spent = (λ e. cc e, u)
  answer-Ended cap rest s desk (ok (resume_with bounds, after)) ih u m spent =
      let (less, same, capped) = spent (resume_with bounds, after) refl in
      ih (command bounds s) after less (omega (arith, capped, u, m)) (same ∙ m)
  answer-Ended cap rest s desk (ok (declined, after)) ih u m spent =
      let (_, same) = spent (declined, after) refl in (λ e. cc e, omega (arith, same, u))
  answer-Ended cap rest s desk (ok (unheard, after)) ih u m spent =
      let (_, same) = spent (unheard, after) refl in (λ e. cc e, omega (arith, same, u))

  resolve-Spent :
      (s : CimState F) (desk : Desk) (out : Resolution F × Desk)
      → resolve setup s desk ≡ ok out
      → Spent desk out
  resolve-Spent s desk out =
      resolve_override-Spent setup.console setup.text_ops (registered setup).registry
        setup.report_path s desk out

  hear-Ended :
      (cap : ℕ) (rest : Input F → Desk → Closing S F) (desk : Desk) (streamed : Streamed F)
      → RestEnds cap (patience desk) rest
      → desk.auto_hitl_rounds_used ≤ cap
      → desk.auto_hitl_max_rounds ≡ cap
      → Ended cap (hear setup store rest desk streamed)
  unfolding finish
  hear-Ended cap rest desk (to_end s) ih u m = (λ e. cc e, u)
  hear-Ended cap rest desk (to_interrupt s) ih u m =
      answer-Ended cap rest s desk (resolve setup s desk) ih u m (resolve-Spent s desk)
  hear-Ended cap rest desk (stopped_before node s) ih u m = (λ e. cc e, u)
  hear-Ended cap rest desk (still_paused s) ih u m = (λ e. cc e, u)
  hear-Ended cap rest desk (raised_at node s e) ih u m = (λ e. cc e, u)

  session_loop-Ended :
      (cap rounds round : ℕ) → RestEnds cap rounds (session_loop setup store rounds round)
  unfolding session_loop
  session_loop-Ended cap zero round s desk l u m = absurd (omega (arith, l))
  session_loop-Ended cap (suc rounds) round s desk l u m =
      hear-Ended cap (session_loop setup store rounds (suc round)) desk
        (stream_until_interrupt (registered setup) (setup.ctrl_c round) s)
        (λ t after l' u' m'.
          session_loop-Ended cap rounds (suc round) t after (omega (arith, l, l')) u' m')
        u m

  begin-Ended :
      (cap : ℕ) (rest : Input F → Desk → Closing S F) (desk : Desk)
      (start_state : Exc (Option (CimState F)))
      → ((s : Input F) → Ended cap (rest s desk))
      → desk.auto_hitl_rounds_used ≤ cap
      → Ended cap (begin setup store rest desk start_state)
  begin-Ended cap rest desk (raise e) ih u = (λ e. cc e, u)
  begin-Ended cap rest desk (ok none) ih u = (λ e. cc e, u)
  begin-Ended cap rest desk (ok (some s)) ih u = ih (initial s)

  -- Whatever the checkpoints hold, and whatever the tools, the models, the researcher and Ctrl-C do, a
  -- session comes to an exit, or to an exception, within one more round of its loop than there are
  -- lines to read or, with --auto-hitl, rounds left under the cap; and no more rounds than the cap
  -- allows are resolved without a researcher.
  pub run_session-Ends :
      (rounds : ℕ) (snapshot : Snapshot F) (desk : Desk)
      → patience desk < rounds
      → desk.auto_hitl_rounds_used ≤ desk.auto_hitl_max_rounds
      → (Closing.exit (run_session setup store rounds snapshot desk) ≢ out_of_rounds)
        × (Desk.auto_hitl_rounds_used (Closing.desk (run_session setup store rounds snapshot desk))
            ≤ desk.auto_hitl_max_rounds)
  unfolding run_session
  run_session-Ends rounds absent desk l u =
      begin-Ended _ (session_loop setup store rounds 0) desk (seeded setup store)
        (λ s. session_loop-Ended _ rounds 0 s desk l u refl) u
  run_session-Ends rounds (complete s) desk l u = (λ e. cc e, u)
  run_session-Ends rounds (paused s) desk l u =
      answer-Ended _ (session_loop setup store rounds 0) s desk (resolve setup s desk)
        (λ t after l' u' m'. session_loop-Ended _ rounds 0 t after (omega (arith, l, l')) u' m') u
        refl (resolve-Spent s desk)
  run_session-Ends rounds (unfinished node s) desk l u = (λ e. cc e, u)
