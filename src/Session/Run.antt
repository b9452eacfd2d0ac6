-- ===== src/Session/Run.antt =====
-- main.py: `run_session`, from a new session or from what the checkpoints hold of an earlier one, up
-- to its exit.
pub mod Ends
pub mod Exits
pub mod Learns
pub mod Undisturbed
use autocim_agent.Prelude.{
  ℕ, zero, suc, String, Bool, Option, none, some, List, [], ◌∷◌, Exc, ok, raise,
}
use autocim_agent.Prelude.Float.{Float}
use autocim_agent.Schemas.{HwConfig}
use autocim_agent.Prelude.Dict.{Dict}
use autocim_agent.State.{Override, CimState, apply_update}
use autocim_agent.Middleware.{register_hw_config}
use autocim_agent.Tools.{QatCall, QatResult}
use autocim_agent.Nodes.Workers.{bounds_input, hitl_node}
use autocim_agent.Pipeline.{
  Node, planner, Next, goto, finished, interrupted, crashed, Services, step,
}
use autocim_agent.Session.{TextOps}
use autocim_agent.Session.Prompt.{
  Console, Desk, Resolution, resume_with, declined, unheard, resolve_override,
}
use autocim_agent.Session.Seed.{
  Targets, LongTerm, build_initial_state, recall, Trials, warm_up, persist_long_term_learnings,
}

-- What the checkpoints hold of a session, as `graph.get_state` shows it: nothing; the state after the
-- last node; the state at the interrupt; the state before a node that has not been completed.
pub data Snapshot (F : Type 0) : Type 0 where
  absent : Snapshot F
  complete : CimState F → Snapshot F
  paused : CimState F → Snapshot F
  unfinished : Node → CimState F → Snapshot F

-- What a stream of the graph is given: a state to start from, or the bounds to resume with at the
-- interrupt in a state.
pub data Input (F : Type 0) : Type 0 where
  initial : CimState F → Input F
  command : Dict (Override F) → CimState F → Input F

-- How the graph's stream ends: at its end, at the interrupt, by Ctrl-C before a node, by Ctrl-C
-- before `hitl_node` has gone on from its interrupt, or by the exception of a node.
pub data Streamed (F : Type 0) : Type 0 where
  to_end : CimState F → Streamed F
  to_interrupt : CimState F → Streamed F
  stopped_before : Node → CimState F → Streamed F
  still_paused : CimState F → Streamed F
  raised_at : Node → CimState F → String → Streamed F

abbrev pub state_of : {F : Type 0} → Input F → CimState F
state_of (initial s) = s
state_of (command bounds s) = s

-- The stream after a step of a node in a state, given the stream of the steps that follow.
abbrev pub after_step :
    {F : Type 0} → (Node → CimState F → Streamed F) → Node → CimState F → Next F → Streamed F
after_step rest node s (goto next t) = rest next t
after_step rest node s (finished t) = to_end t
after_step rest node s (interrupted t) = to_interrupt t
after_step rest node s (crashed e) = raised_at node s e

module _ {F G : Type 0} ⦃fl : Float F⦄ (services : Services F G) where
  -- The nodes from one on: Ctrl-C comes when `patience` nodes have been completed.
  unfoldable pub stream_from : (patience : ℕ) → Node → CimState F → Streamed F
  stream_from zero node s = stopped_before node s
  stream_from (suc patience) node s =
      after_step (stream_from patience) node s (step services node s)

  -- `stream_until_interrupt`: a start runs from the planner on; a resume completes `hitl_node` first,
  -- before which the interrupt stays pending.
  unfoldable pub stream_until_interrupt : (patience : ℕ) → Input F → Streamed F
  stream_until_interrupt patience (initial s) = stream_from patience planner s
  stream_until_interrupt zero (command bounds s) = still_paused s
  stream_until_interrupt (suc patience) (command bounds s) =
      stream_from patience planner (apply_update s (hitl_node (bounds_input (some bounds)) s))

-- The exits of `run_session`, and its exceptions. The last one stands for rounds that were not
-- computed.
pub data Exit : Type 0 where
  already_complete : Exit
  nothing_pending : Exit
  warm_up_broken_off : Exit
  converged : Exit
  stopped : Exit
  without_input : Exit
  broken_off : Exit
  failed_with : String → Exit
  out_of_rounds : Exit

-- What a session leaves.
pub record Closing (S F : Type 0) : Type 0 where
  pub exit : Exit
  pub snapshot : Snapshot F
  pub store : S
  pub desk : Desk
  pub reports : List (String × CimState F)

-- What a session is given. `ctrl_c` says after how many nodes Ctrl-C comes in each stream of the
-- graph; a large number means that it does not come.
pub record Setup (S F G : Type 0) : Type 0 where
  pub services : Services F G
  pub qat : String → QatCall F → Exc (QatResult F)
  pub long_term : LongTerm S F
  pub text_ops : TextOps
  pub console : Console F
  pub model_id : String
  pub hw_config : HwConfig F
  pub targets : Targets F
  pub allow_approximate_calibration : Bool
  pub trials : Trials
  pub report_path : String
  pub ctrl_c : ℕ → ℕ

-- `write_dashboard`: a report of the state, where one is asked for.
abbrev pub write_dashboard : {F : Type 0} → Option String → CimState F → List (String × CimState F)
write_dashboard none s = []
write_dashboard (some path) s = (path, s) ∷ []

module _ {S F G : Type 0} ⦃fl : Float F⦄ (setup : Setup S F G) where
  -- The services, with the session's hardware registered.
  abbrev pub registered : Services F G
  registered = record (setup.services) {
    registry = register_hw_config setup.hw_config setup.services.registry;
  }

  abbrev pub resolve : CimState F → Desk → Exc (Resolution F × Desk)
  resolve = resolve_override setup.console setup.text_ops registered.registry setup.report_path

module _ {S F G : Type 0} ⦃fl : Float F⦄ (setup : Setup S F G) (store : S) where
  -- An exit after `_finish`.
  unfoldable pub finish : Exit → Snapshot F → CimState F → Desk → Closing S F
  finish exit snapshot s desk = record {
    exit = exit;
    snapshot = snapshot;
    store =
        persist_long_term_learnings setup.long_term setup.model_id setup.hw_config.hw_spec_id store
          s;
    desk = desk;
    reports = write_dashboard desk.dashboard_out s;
  }

  -- An exit without it.
  abbrev pub leave : Exit → Snapshot F → Desk → Closing S F
  leave exit snapshot desk = record {
    exit = exit;
    snapshot = snapshot;
    store = store;
    desk = desk;
    reports = [];
  }

  -- At the interrupt: the graph goes on with an override, and else the session ends.
  abbrev pub answer :
      (Input F → Desk → Closing S F) → CimState F → Desk → Exc (Resolution F × Desk) → Closing S F
  answer rest s desk (raise e) = leave (failed_with e) (paused s) desk
  answer rest s desk (ok (resume_with bounds, after)) = rest (command bounds s) after
  answer rest s desk (ok (declined, after)) = finish stopped (paused s) s after
  answer rest s desk (ok (unheard, after)) = finish without_input (paused s) s after

  -- After a stream of the graph.
  abbrev pub hear : (Input F → Desk → Closing S F) → Desk → Streamed F → Closing S F
  hear rest desk (to_end s) = finish converged (complete s) s desk
  hear rest desk (to_interrupt s) = answer rest s desk (resolve setup s desk)
  hear rest desk (stopped_before node s) = finish broken_off (unfinished node s) s desk
  hear rest desk (still_paused s) = finish broken_off (paused s) s desk
  hear rest desk (raised_at node s e) = leave (failed_with e) (unfinished node s) desk

  -- The `while True` of `run_session`, at most `rounds` times round, from round number `round` on.
  unfoldable pub session_loop : (rounds round : ℕ) → Input F → Desk → Closing S F
  unfolding finish
  session_loop zero round input desk =
      leave out_of_rounds (unfinished planner (state_of input)) desk
  session_loop (suc rounds) round input desk =
      hear (session_loop rounds (suc round)) desk
        (stream_until_interrupt (registered setup) (setup.ctrl_c round) input)

  -- The state of a new session.
  unfoldable pub seeded : Exc (Option (CimState F))
  seeded = warm_up (registered setup) setup.qat setup.model_id setup.hw_config setup.trials (
      recall setup.long_term setup.model_id setup.hw_config.hw_spec_id store (
        build_initial_state setup.model_id setup.hw_config setup.targets
          setup.allow_approximate_calibration))

  abbrev pub begin : (Input F → Desk → Closing S F) → Desk → Exc (Option (CimState F)) → Closing S F
  begin rest desk (raise e) = leave (failed_with e) absent desk
  begin rest desk (ok none) = leave warm_up_broken_off absent desk
  begin rest desk (ok (some s)) = rest (initial s) desk

  unfoldable pub run_session : (rounds : ℕ) → Snapshot F → Desk → Closing S F
  unfolding session_loop seeded finish
  run_session rounds absent desk = begin (session_loop rounds 0) desk seeded
  run_session rounds (complete s) desk = finish already_complete (complete s) s desk
  run_session rounds (paused s) desk = answer (session_loop rounds 0) s desk (resolve setup s desk)
  run_session rounds (unfinished node s) desk = leave nothing_pending (unfinished node s) desk
