-- ===== src/Tests/Runs.antt =====
-- What the theorems on whole sessions say of concrete ones.
use autocim_agent.Prelude.{
  ℕ, ◌≤◌, ◌≡◌, ◌≢◌, refl, true, false, none, some, List, [], ◌∷◌, arith, get_or, raise, String,
}
use autocim_agent.Prelude.Dict.{Dict, lookup, insert}
use autocim_agent.State.{
  CandidateEntry, CimState, apply_update, merge_dicts, namespaced_metrics_reducer,
}
use mathlib.Core.List.{zip}
use autocim_agent.Search.Lhs.{
  warmup_stage_candidate, latin_hypercube_stage_candidates, stage_dims, latin_hypercube_1d,
  shuffled_strata, cyclic, draw_strata, zip_rows, heads, pairs,
}
use autocim_agent.Middleware.{get_hw_config, register_hw_config}
use autocim_agent.Nodes.Planner.{
  real_stage_names, propose_stage_points, points_to_stage_configs, search_bounds, bits_max,
  warmup_count, construct_layer,
}
use autocim_agent.Nodes.Planner.Node.{planner_node, planned_update, explanation, explain_decision}
use autocim_agent.Nodes.Workers.{tuner_node, hitl_node}
use autocim_agent.Llm.{check_budget}
use autocim_agent.Pipeline.{step}
use autocim_agent.Store.{Buckets, get, put}
use autocim_agent.Store.Laws.{get-put}
use autocim_agent.Session.{persist_candidates, TextOps, suggest_override_bounds, classify}
use autocim_agent.Session.Prompt.{
  Console, not_json, menu, Desk, prompt_for_override, read_choice, read_manual, resolve_override,
}
use autocim_agent.Session.Prompt.Offered.{OfferedBy, prompt_for_override-Offered}
use autocim_agent.Session.Seed.{LongTerm, finish_in, recall, stored_candidates}
use autocim_agent.Session.Run.{
  stream_from, finish, absent, paused, broken_off, out_of_rounds, Closing, Setup, run_session,
  stream_until_interrupt,
}
use autocim_agent.Session.Run.Ends.{run_session-Ends}
use autocim_agent.Session.Run.Exits.{Leaves, run_session-Leaves}
use autocim_agent.Session.Run.Learns.{AreMemories, learns, values, run_session-recall}
use autocim_agent.Tests.Numbers.{micro_float}
use autocim_agent.Tests.Fixtures.{hw, fresh, candidate}
use autocim_agent.Tests.Pipeline.{services}

abbrev Memory : Type 0
Memory = Buckets (Dict ℕ) × Buckets (Dict (List (CandidateEntry ℕ)))

abbrev memories : LongTerm Memory ℕ
memories = record {
  hw_store = record { read = λ s n k. get s.0 n k; write = λ s n k v. (put s.0 n k v, s.1) };
  model_store = record { read = λ s n k. get s.1 n k; write = λ s n k v. (s.0, put s.1 n k v) };
}

memories-AreMemories : AreMemories memories
memories-AreMemories = record {
  hw_law = record { read-write = λ s m n j k v. get-put s.0 m n j k v };
  model_law = record { read-write = λ s m n j k v. get-put s.1 m n j k v };
  apart = λ s m n j k v e. refl;
}

abbrev console : Console ℕ
console = record { strip = λ t. t; lower = λ t. t; loads = λ t. not_json }

abbrev text_ops : TextOps
text_ops = record { starts_with = λ t prefix. false; segments = λ t. t ∷ [] }

abbrev setup : Setup Memory ℕ ℕ
setup = record {
  services = services;
  qat = λ model call. raise "no device";
  long_term = memories;
  text_ops = text_ops;
  console = console;
  model_id = "model";
  hw_config = hw;
  targets = record { target_accuracy = none; target_energy_pj = none; target_latency_ms = none };
  allow_approximate_calibration = true;
  trials = finish_in (2 ∷ 0 ∷ 1 ∷ []);
  report_path = "report.html";
  ctrl_c = λ round. 3;
}

abbrev nothing_stored : Memory
nothing_stored = ([], [])

abbrev at_desk : List String → Desk
at_desk lines = record {
  auto_hitl = false;
  auto_hitl_max_rounds = 2;
  auto_hitl_rounds_used = 0;
  dashboard_out = none;
  lines = lines;
}

-- The researcher looks at the prompt for bounds, goes back, and stops.
abbrev leaving : List String
leaving = "2" ∷ "b" ∷ "4" ∷ "3" ∷ "left over" ∷ []

prompt_for_override-Offered_example :
    OfferedBy console none leaving (prompt_for_override console none menu leaving)
prompt_for_override-Offered_example = prompt_for_override-Offered console none menu leaving

run_session-Ends_example :
    (Closing.exit (run_session setup nothing_stored 6 absent (at_desk leaving)) ≢ out_of_rounds)
    × (Desk.auto_hitl_rounds_used
          (Closing.desk (run_session setup nothing_stored 6 absent (at_desk leaving)))
        ≤ 2)
run_session-Ends_example =
    run_session-Ends setup nothing_stored 6 absent (at_desk leaving) (omega arith) (omega arith)

abbrev old : CandidateEntry ℕ
old = candidate 900000 3000000 2000000 (some 1)

abbrev at_review : CimState ℕ
at_review = record fresh { candidate_history = old ∷ [] }

run_session-Leaves_example :
    let closing = run_session setup nothing_stored 6 (paused at_review) (at_desk leaving) in
    Leaves setup nothing_stored
      (Closing.exit closing)
      (Closing.snapshot closing)
      (Closing.store closing)
run_session-Leaves_example =
    run_session-Leaves setup nothing_stored 6 (paused at_review) (at_desk leaving)

stops :
    learns (Closing.exit (run_session setup nothing_stored 6 (paused at_review) (at_desk leaving)))
    ≡ true
unfolding run_session resolve_override prompt_for_override read_choice read_manual
    suggest_override_bounds classify
stops = refl

run_session-recall_example :
    let closing = run_session setup nothing_stored 6 (paused at_review) (at_desk leaving) in
    (s : CimState ℕ) × (values (Closing.snapshot closing) ≡ some s)
    × ((t : CimState ℕ)
        → CimState.candidate_history (recall memories "model" "hw" (Closing.store closing) t)
          ≡ get_or
              (persist_candidates
                (stored_candidates memories "model" "hw" nothing_stored)
                s.candidate_history)
              t.candidate_history)
run_session-recall_example =
    run_session-recall setup nothing_stored memories-AreMemories 6 (paused at_review)
      (at_desk leaving) stops

-- The researcher resumes without bounds, and presses Ctrl-C while the hardware is simulated.
abbrev resuming : List String
resuming = "2" ∷ "" ∷ []

breaks_off :
    Closing.exit (run_session setup nothing_stored 6 (paused at_review) (at_desk resuming))
    ≡ broken_off
unfolding run_session resolve_override prompt_for_override read_choice read_manual
    suggest_override_bounds classify stream_until_interrupt stream_from apply_update hitl_node step
    planner_node propose_stage_points warmup_count real_stage_names warmup_stage_candidate
    latin_hypercube_stage_candidates zip_rows stage_dims latin_hypercube_1d shuffled_strata cyclic
    draw_strata points_to_stage_configs pairs construct_layer search_bounds merge_dicts bits_max
    get_hw_config lookup heads zip planned_update tuner_node explanation explain_decision
    check_budget namespaced_metrics_reducer insert register_hw_config
breaks_off = refl

-- Ctrl-C before the resume has got past the interrupt: it stays pending.
at_once :
    run_session
      (record setup { ctrl_c = λ round. 0 })
      nothing_stored
      6
      (paused fresh)
      (at_desk resuming)
    ≡ finish
        (record setup { ctrl_c = λ round. 0 })
        nothing_stored
        broken_off
        (paused fresh)
        fresh
        (at_desk [])
unfolding run_session resolve_override prompt_for_override read_choice read_manual
    suggest_override_bounds classify stream_until_interrupt
at_once = refl
