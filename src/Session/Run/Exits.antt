-- ===== src/Session/Run/Exits.antt =====
-- What each exit of a session leaves in the checkpoints and in the long-term store.
use autocim_agent.Prelude.{
  ℕ, zero, suc, ◌≡◌, ◌⊎◌, inl, inr, refl, Option, none, some, Exc, ok, raise,
}
use autocim_agent.Prelude.Float.{Float}
use autocim_agent.State.{CimState}
use autocim_agent.Pipeline.{Node}
use autocim_agent.Session.Prompt.{Desk, Resolution, resume_with, declined, unheard}
use autocim_agent.Session.Seed.{persist_long_term_learnings}
use autocim_agent.Session.Run.{
  Snapshot, absent, complete, paused, unfinished, Streamed, to_end, to_interrupt, stopped_before,
  still_paused, Input, initial, command, raised_at, stream_until_interrupt, Exit, already_complete,
  nothing_pending, warm_up_broken_off, converged, stopped, without_input, broken_off, failed_with,
  out_of_rounds, Closing, Setup, answer, registered, resolve, hear, session_loop, begin, seeded,
  run_session, finish,
}

module _ {S F G : Type 0} ⦃fl : Float F⦄ (setup : Setup S F G) (store : S) where
  abbrev pub learned : CimState F → S
  learned s =
      persist_long_term_learnings setup.long_term setup.model_id setup.hw_config.hw_spec_id store s

  -- The checkpoint and the store that belong to an exit.
  abbrev pub Leaves : Exit → Snapshot F → S → Type 0
  Leaves already_complete snapshot after =
      (s : CimState F) × (snapshot ≡ complete s) × (after ≡ learned s)
  Leaves converged snapshot after = (s : CimState F) × (snapshot ≡ complete s) × (after ≡ learned s)
  Leaves stopped snapshot after = (s : CimState F) × (snapshot ≡ paused s) × (after ≡ learned s)
  Leaves without_input snapshot after =
      (s : CimState F) × (snapshot ≡ paused s) × (after ≡ learned s)
  Leaves broken_off snapshot after =
      (s : CimState F) × (((node : Node) × (snapshot ≡ unfinished node s)) ⊎ (snapshot ≡ paused s))
      × (after ≡ learned s)
  Leaves nothing_pending snapshot after =
      (node : Node) × (s : CimState F) × (snapshot ≡ unfinished node s) × (after ≡ store)
  Leaves warm_up_broken_off snapshot after = (snapshot ≡ absent) × (after ≡ store)
  Leaves (failed_with e) snapshot after = after ≡ store
  Leaves out_of_rounds snapshot after = after ≡ store

  abbrev Left : Closing S F → Type 0
  Left closing = Leaves closing.exit closing.snapshot closing.store

  answer-Left :
      (rest : Input F → Desk → Closing S F) (s : CimState F) (desk : Desk)
      (resolved : Exc (Resolution F × Desk))
      → ((t : Input F) (after : Desk) → Left (rest t after))
      → Left (answer setup store rest s desk resolved)
  unfolding finish
  answer-Left rest s desk (raise e) ih = refl
  answer-Left rest s desk (ok (resume_with bounds, after)) ih = ih (command bounds s) after
  answer-Left rest s desk (ok (declined, after)) ih = (s, refl, refl)
  answer-Left rest s desk (ok (unheard, after)) ih = (s, refl, refl)

  hear-Left :
      (rest : Input F → Desk → Closing S F) (desk : Desk) (streamed : Streamed F)
      → ((t : Input F) (after : Desk) → Left (rest t after))
      → Left (hear setup store rest desk streamed)
  unfolding finish
  hear-Left rest desk (to_end s) ih = (s, refl, refl)
  hear-Left rest desk (to_interrupt s) ih = answer-Left rest s desk (resolve setup s desk) ih
  hear-Left rest desk (stopped_before node s) ih = (s, inl (node, refl), refl)
  hear-Left rest desk (still_paused s) ih = (s, inr refl, refl)
  hear-Left rest desk (raised_at node s e) ih = refl

  session_loop-Left :
      (rounds round : ℕ) (s : Input F) (desk : Desk)
      → Left (session_loop setup store rounds round s desk)
  unfolding session_loop
  session_loop-Left zero round s desk = refl
  session_loop-Left (suc rounds) round s desk =
      hear-Left (session_loop setup store rounds (suc round)) desk
        (stream_until_interrupt (registered setup) (setup.ctrl_c round) s)
        (session_loop-Left rounds (suc round))

  begin-Left :
      (rounds : ℕ) (desk : Desk) (start_state : Exc (Option (CimState F)))
      → Left (begin setup store (session_loop setup store rounds 0) desk start_state)
  begin-Left rounds desk (raise e) = refl
  begin-Left rounds desk (ok none) = (refl, refl)
  begin-Left rounds desk (ok (some s)) = session_loop-Left rounds 0 (initial s) desk

  -- Every session leaves the checkpoint that its exit says: the end of the graph where it converged,
  -- the pending interrupt where it was stopped or got no input; where Ctrl-C broke it off, an
  -- unfinished node, or the pending interrupt if `hitl_node` had not gone on from it. And at exactly those exits the long-term store has learned from the state of that
  -- checkpoint; at an exception, at an unfinished session and at a broken warm-up it is as it was.
  pub run_session-Leaves :
      (rounds : ℕ) (snapshot : Snapshot F) (desk : Desk)
      → Leaves
          (Closing.exit (run_session setup store rounds snapshot desk))
          (Closing.snapshot (run_session setup store rounds snapshot desk))
          (Closing.store (run_session setup store rounds snapshot desk))
  unfolding run_session
  run_session-Leaves rounds absent desk = begin-Left rounds desk (seeded setup store)
  run_session-Leaves rounds (complete s) desk = (s, refl, refl)
  run_session-Leaves rounds (paused s) desk =
      answer-Left (session_loop setup store rounds 0) s desk (resolve setup s desk)
        (session_loop-Left rounds 0)
  run_session-Leaves rounds (unfinished node s) desk = (node, s, refl, refl)
