-- ===== src/Session/Listing.antt =====
-- main.py: `list_sessions`, what the checkpoints hold of every session.
pub mod Once
use autocim_agent.Prelude.{
  ℕ, String, str_eq, Bool, true, false, ◌||◌, Option, none, some, List, [], ◌∷◌,
}
use autocim_agent.State.{CimState}
use autocim_agent.Session.Run.{Snapshot, absent, complete, paused, unfinished}

-- A row of the listing.
pub record SessionRow : Type 0 where
  pub thread_id : String
  pub model_id : Option String
  pub hw_spec_id : Option String
  pub iteration_count : Option ℕ
  pub is_converged : Option Bool
  pub paused : Bool

-- `thread_id in seen_thread_ids`
abbrev pub contains : String → List String → Bool
contains thread_id [] = false
contains thread_id (seen ∷ ids) = str_eq thread_id seen || contains thread_id ids

module _ {F : Type 0} where
  row_of : String → Bool → CimState F → SessionRow
  row_of thread_id is_paused s = record {
    thread_id = thread_id;
    model_id = some s.model_id;
    hw_spec_id = some s.hw_spec_id;
    iteration_count = some s.iteration_count;
    is_converged = some s.is_converged;
    paused = is_paused;
  }

  -- A thread's row, from its snapshot; `paused` says that the snapshot has next nodes.
  unfoldable pub session_row : String → Snapshot F → SessionRow
  unfolding row_of
  session_row id absent = record {
    thread_id = id;
    model_id = none;
    hw_spec_id = none;
    iteration_count = none;
    is_converged = none;
    paused = false;
  }
  session_row id (complete s) = row_of id false s
  session_row id (paused s) = row_of id true s
  session_row id (unfinished node s) = row_of id true s

  -- The loop over the checkpoints' thread ids, newest first, past the ones that were seen.
  unfoldable pub list_unseen : (String → Snapshot F) → (seen ids : List String) → List SessionRow
  list_unseen get_state seen [] = []
  list_unseen get_state seen (id ∷ ids) = elim (contains id seen) [
    | true ↦ list_unseen get_state seen ids
    | false ↦ session_row id (get_state id) ∷ list_unseen get_state (id ∷ seen) ids
  ]

  unfoldable pub list_sessions : (String → Snapshot F) → List String → List SessionRow
  unfolding list_unseen
  list_sessions get_state ids = list_unseen get_state [] ids
