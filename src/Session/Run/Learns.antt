-- ===== src/Session/Run/Learns.antt =====
-- A later session starts from what an earlier one has left in the long-term store.
use autocim_agent.Prelude.{
  inl, inr, ℕ, Bool, ◌≡◌, refl, ◌∙◌, ap, String, true, false, Option, none, some, List, [], ◌∷◌,
  get_or, is_empty, if◌then◌else◌,
}
use autocim_agent.Prelude.Dict.{Dict, lookup}
use autocim_agent.Prelude.Float.{Float}
use autocim_agent.State.{CimState, CandidateEntry}
use autocim_agent.Store.{
  Namespace, same_namespace, model_namespace, hw_namespace, get_pareto_solutions,
  put_pareto_solutions, put_calibration_factors,
}
use autocim_agent.Store.Laws.{IsStore, read-written}
use autocim_agent.Session.{persist_candidates}
use autocim_agent.Session.Seed.{
  LongTerm, stored_candidates, persist_factor, persist_long_term_learnings, recall,
  pareto_store_key,
}
use autocim_agent.Session.Prompt.{Desk}
use autocim_agent.Session.Run.{
  Snapshot, absent, complete, paused, unfinished, Exit, already_complete, nothing_pending,
  warm_up_broken_off, converged, stopped, without_input, broken_off, failed_with, out_of_rounds,
  Closing, Setup, run_session,
}
use autocim_agent.Session.Run.Exits.{learned, Leaves, run_session-Leaves}

-- What the two memories of a store promise: each reads back what it has written, and neither sees
-- what the other writes in another namespace.
pub record AreMemories {S F : Type 0} (long_term : LongTerm S F) : Type 0 where
  pub hw_law : IsStore long_term.hw_store
  pub model_law : IsStore long_term.model_store
  pub apart :
      (s : S) (m n : Namespace) (j k : String) (v : Dict F)
      → same_namespace m n ≡ false
      → long_term.model_store.read (long_term.hw_store.write s m j v) n k
        ≡ long_term.model_store.read s n k

module _ {S F : Type 0} ⦃fl : Float F⦄ (long_term : LongTerm S F) (laws : AreMemories long_term)
    (model_id hw_spec_id : String) where
  persist_factor-stored :
      (store : S) (factor : Option F)
      → stored_candidates long_term model_id hw_spec_id
          (persist_factor long_term hw_spec_id store factor)
        ≡ stored_candidates long_term model_id hw_spec_id store
  unfolding persist_factor stored_candidates get_pareto_solutions put_calibration_factors
  persist_factor-stored store none = refl
  persist_factor-stored store (some factor) =
      ap (λ read. lookup "candidates" (get_or read []))
        (laws.apart store (hw_namespace hw_spec_id)
          (model_namespace (pareto_store_key model_id hw_spec_id)) "calibration_factors"
          "pareto_solutions" _ refl)

  put-stored :
      (store : S) (front : List (CandidateEntry F))
      → stored_candidates long_term model_id hw_spec_id (
          put_pareto_solutions long_term.model_store store
            (pareto_store_key model_id hw_spec_id)
            (("candidates", front) ∷ []))
        ≡ some front
  unfolding stored_candidates get_pareto_solutions put_pareto_solutions lookup
  put-stored store front =
      ap (λ read. lookup "candidates" (get_or read []))
        (read-written long_term.model_store laws.model_law store
          (model_namespace (pareto_store_key model_id hw_spec_id)) "pareto_solutions" _)

  by_history :
      (store calibrated : S) (history : List (CandidateEntry F))
      → stored_candidates long_term model_id hw_spec_id calibrated
        ≡ stored_candidates long_term model_id hw_spec_id store
      → let existing = stored_candidates long_term model_id hw_spec_id calibrated in
        stored_candidates long_term model_id hw_spec_id (
          if is_empty history
          then calibrated
          else put_pareto_solutions long_term.model_store calibrated
              (pareto_store_key model_id hw_spec_id)
              (("candidates", get_or (persist_candidates existing history) []) ∷ []))
        ≡ persist_candidates (stored_candidates long_term model_id hw_spec_id store) history
  unfolding persist_candidates
  by_history store calibrated [] same = same
  by_history store calibrated (c ∷ history) same =
      put-stored calibrated _ ∙ ap (λ stored. persist_candidates stored (c ∷ history)) same

  -- The stored candidates after a session are those that `persist_candidates` gives.
  pub persist_long_term_learnings-stored :
      (store : S) (s : CimState F)
      → stored_candidates long_term model_id hw_spec_id
          (persist_long_term_learnings long_term model_id hw_spec_id store s)
        ≡ persist_candidates
            (stored_candidates long_term model_id hw_spec_id store)
            s.candidate_history
  unfolding persist_long_term_learnings
  persist_long_term_learnings-stored store s =
      let factor = lookup hw_spec_id s.calibration_factors in
      by_history store (persist_factor long_term hw_spec_id store factor) s.candidate_history
        (persist_factor-stored store factor)

-- The exits that go through `_finish`.
abbrev pub learns : Exit → Bool
learns already_complete = true
learns converged = true
learns stopped = true
learns without_input = true
learns broken_off = true
learns _ = false

-- `graph.get_state(config).values`
abbrev pub values : {F : Type 0} → Snapshot F → Option (CimState F)
values absent = none
values (complete s) = some s
values (paused s) = some s
values (unfinished node s) = some s

module _ {S F G : Type 0} ⦃fl : Float F⦄ (setup : Setup S F G) (store : S) where
  -- The session has ended in a state that the store has learned from.
  abbrev LearnedFrom : Snapshot F → S → Type 0
  LearnedFrom snapshot after =
      (s : CimState F) × (values snapshot ≡ some s) × (after ≡ learned setup store s)

  Leaves-learned :
      (exit : Exit) (snapshot : Snapshot F) (after : S)
      → learns exit ≡ true
      → Leaves setup store exit snapshot after
      → LearnedFrom snapshot after
  Leaves-learned already_complete snapshot after l (s, e, k) = (s, ap values e, k)
  Leaves-learned converged snapshot after l (s, e, k) = (s, ap values e, k)
  Leaves-learned stopped snapshot after l (s, e, k) = (s, ap values e, k)
  Leaves-learned without_input snapshot after l (s, e, k) = (s, ap values e, k)
  Leaves-learned broken_off snapshot after l (s, inl (node, e), k) = (s, ap values e, k)
  Leaves-learned broken_off snapshot after l (s, inr e, k) = (s, ap values e, k)
  Leaves-learned nothing_pending snapshot after l h = cc l
  Leaves-learned warm_up_broken_off snapshot after l h = cc l
  Leaves-learned (failed_with e) snapshot after l h = cc l
  Leaves-learned out_of_rounds snapshot after l h = cc l

  -- Over any store with the two memories: after a session that has gone through `_finish`, a new
  -- session for the same model and hardware starts from the candidates that `persist_candidates` makes
  -- of the stored ones and the history in the session's checkpoint, and from an empty history only
  -- where there are none.
  pub run_session-recall :
      (laws : AreMemories setup.long_term) (rounds : ℕ) (snapshot : Snapshot F) (desk : Desk)
      → learns (Closing.exit (run_session setup store rounds snapshot desk)) ≡ true
      → let closing = run_session setup store rounds snapshot desk in
        let hw_spec_id = setup.hw_config.hw_spec_id in
        (s : CimState F) × (values (Closing.snapshot closing) ≡ some s)
        × ((t : CimState F)
            → CimState.candidate_history
                (recall setup.long_term setup.model_id hw_spec_id (Closing.store closing) t)
              ≡ get_or
                  (persist_candidates
                    (stored_candidates setup.long_term setup.model_id hw_spec_id store)
                    s.candidate_history)
                  t.candidate_history)
  unfolding recall
  run_session-recall laws rounds snapshot desk l =
      let closing = run_session setup store rounds snapshot desk in
      let hw_spec_id = setup.hw_config.hw_spec_id in
      let (s, e, k) =
        Leaves-learned closing.exit closing.snapshot closing.store l
          (run_session-Leaves setup store rounds snapshot desk) in
      (
        s,
        e,
        λ t.
            ap (λ stored. get_or stored t.candidate_history)
              (ap (stored_candidates setup.long_term setup.model_id hw_spec_id) k
                ∙ persist_long_term_learnings-stored setup.long_term laws setup.model_id hw_spec_id
                    store s),
      )
