-- ===== src/Lib.antt =====
-- Verification library of AutoCIM-Agent, the agent that searches for the bit widths and the pruning
-- of a neural network on compute-in-memory hardware.
--
-- The program is a graph of nodes over one state (graph.py). The planner (nodes/planner.py) proposes
-- a configuration of each stage of the network with the search of tools/search.py; the tuner, the
-- mapper, the profiler and the verifier (nodes/*.py) call the simulation tools (tools/simulators.py)
-- through the interceptor of middleware.py, and put the results into the state's metrics store; the
-- evaluator (nodes/evaluator.py) compares them with the targets (tools/targets.py) and routes back to
-- the planner, to a human (nodes/hitl.py) or to the precise check (nodes/precision_verifier.py), which
-- alone leads to the end. The reducers of state.py merge what the nodes return. A session (main.py)
-- asks for the hardware, seeds the state from the long-term store or from a batch of warm-up trials,
-- runs the graph, asks the researcher or a rule for new bounds at each interrupt, and stores what it
-- has learned.
--
-- How the files correspond to the code:
--   Prelude     shared names; Python's dicts, exceptions, integers and floats. A float is a value of
--               a type with the operations of the record Float; laws of the machine's arithmetic are
--               named hypotheses (IsOrder, IsTotal, IsRounding), as are those of random.Random (IsRng).
--   Schemas     schemas/config.py and schemas/tools.py
--   State       state.py, the state AutoCIMState, and the partial state that a node returns
--   Targets     tools/targets.py
--   Search      tools/search.py: Lhs (Latin hypercubes), Surrogate (the weighted prediction and the
--               scan), Propose (the multi-objective proposal), Pareto (domination and rank)
--   Physics     tools/cim_physics.py
--   Precision   tools/precision_check.py
--   Tools       tools/simulators.py
--   Middleware  middleware.py: the registry, wrap_tool_call, get_pruned_context
--   Nodes       nodes/: Nodes itself is common.py; Evaluator, Recheck (precision_verifier.py), Workers
--               (tuner.py, mapper.py, profiler.py, verifier.py, hitl.py), Planner and its Node
--   Llm         llm.py: the budget, Model (resolve_planner_model), Usage (tokens and cost), Failure
--               (what an exception says), Retry (invoke_with_retry)
--   Pipeline    graph.py: the edges as a step function, and runs of it
--   Calibration tools/calibration.py: the published data, the exact and the nearest reference
--   Store       store.py: the store in memory, and the two memories over a store's interface; Sqlite is
--               the table of SqliteLongTermStore
--   Warmup      tools/batch_warmup.py: one candidate through the tools, and the pass over the results;
--               Batch is run_parallel_warmup, whose threads are an order in which the trials finish
--   Wizard      main.py, the interactive setup: Wizard itself builds, loads and saves a hardware
--               specification; Prompts has one function per prompt; Steps is the step chain and the
--               confirm screen; Run the loop over them; Result what is returned and saved
--   Session     main.py, a session: Session itself is the front that a run leaves in the store and the
--               suggested bounds; Prompt the dialogue for overrides; Seed the state that a session
--               starts from, and what it persists; Run is run_session over the graph's checkpoint;
--               Listing is list_sessions
--   Dashboard   tools/dashboard.py: the rows of a report, the blocks of its table, the search's phase
--   Qat         tools/qat.py: the sizes of the data sets and their split, the stage of a layer
--   Tests       concrete inputs
--
-- How the code is modelled. A node is a function from the state to the partial state that it returns,
-- or to an exception (Exc); apply_update merges it by the reducers. An absent key of a partial state is
-- none, or the empty value where the state's reducer keeps the old one. A tool's data are values of
-- Datum; a value that is used as a number and is none raises TypeError, a text in place of a dict
-- raises AttributeError, in each case where the value is read, which may be earlier than Python does.
-- The whole numbers of the program are natural numbers where pydantic or the code keeps them from being
-- negative, and otherwise integers. The grid of a mesh or torus is the least whole number whose square
-- is not below the number of tiles, for math.ceil of a square root.
--
-- Bounds. A run of the graph has a fuel of steps; 19 are enough between two pauses, since a planning
-- round takes at most six steps and the retry limit allows three rounds. The loop of invoke_with_retry
-- recurs on the attempts left. The loops of the dialogue and of the interactive setup recur on the
-- lines of input that are left, or on one turn more than there are lines, since each turn reads a
-- line and the end of the input ends the loop. A session has a fuel of rounds, one more than the lines
-- or the automatic rounds that are left. Ctrl-C in the graph is the number of nodes that are completed
-- before it comes; since the graph pauses or ends within 19 nodes, and on a resume
-- hitl_node, which completes the interrupt, comes before them, 20 says that it does not come.
--
-- Not modelled: the training of tools/qat.py, the optimiser of pymoo, zlib.crc32, the pydantic schemas
-- of the tools' outputs, the language model and its provider, and LangGraph's checkpoints, which are
-- parameters where the code uses them; how Python reads numbers and JSON out of a text, also a
-- parameter; the text of prompts and of what is printed; log events (observability.py); the HTML and
-- the chart of the dashboard; SQLite's own engine and the LIKE query of its search; the command line
-- and main itself.
pub mod Prelude
pub mod Schemas
pub mod State
pub mod Targets
pub mod Search
pub mod Physics
pub mod Middleware
pub mod Precision
pub mod Tools
pub mod Nodes
pub mod Llm
pub mod Pipeline
pub mod Calibration
pub mod Store
pub mod Session
pub mod Warmup
pub mod Wizard
pub mod Dashboard
pub mod Qat
pub mod Tests
