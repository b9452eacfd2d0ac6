-- ===== src/Tests/Reports.antt =====
-- Concrete reports, listings, splits and environments.
use autocim_agent.Prelude.{
  ℕ, ◌≡◌, refl, String, str_eq, Bool, true, false, none, some, List, [], ◌∷◌, ◌++◌, length, All,
  count, arith, if◌then◌else◌, ok, raise,
}
use autocim_agent.Prelude.Int.{pos, negsuc}
use autocim_agent.Prelude.Dict.{lookup}
use autocim_agent.State.{CandidateEntry, PlannerDecision, LlmCallRecord}
use autocim_agent.Tests.Fixtures.{candidate, fresh, evaluated}
use autocim_agent.Dashboard.{
  Row, TagPatterns, iteration_rows, decision_at, joined, ordered, insert_row, is_warmup_row,
  warmup_run, grouped, table_blocks, table_rows, single, warmup_group, search_phase_summary,
  unnamed, llm_usage_summary,
}
use autocim_agent.Dashboard.Table.{shown, InOrder, Collapsed, table_rows-shown}
use autocim_agent.Session.Run.{Snapshot, complete, paused}
use autocim_agent.Session.Listing.{list_sessions, list_unseen, session_row}
use autocim_agent.Session.Listing.Once.{rows_of, list_sessions-once}
use autocim_agent.Qat.{
  images, full_split, QatEnv, resolve_size_env, resolve_int_env, resolve_split_sizes, test_size_of,
  Loaders, loaders, stage_of,
}
use autocim_agent.Tests.Pipeline.{quiet}
use autocim_agent.Llm.Model.{
  ModelTexts, default_local_model, provider_api_key_env, key_missing, resolve_planner_model,
}
use autocim_agent.Store.{Namespace, model_namespace, hw_namespace, get}
use autocim_agent.Store.Sqlite.{Json, namespace_key, select_value, upsert, sqlite_get, sqlite_put}
use autocim_agent.Store.Sqlite.Keys.{of_model, of_hw}
use autocim_agent.Store.Sqlite.Agrees.{sqlite_writes, memory_writes, sqlite_get-writes}
use autocim_agent.Qat.Splits.{training_images, loaders-split}

-- A tag "warm-up" that gives the numbers 2 and 4.
abbrev patterns : TagPatterns
patterns = record {
  warmup_tag = λ tag. if str_eq tag "warm-up" then some (2, 4) else none;
  surrogate_tag = λ tag. none;
}

abbrev entry_at : ℕ → CandidateEntry ℕ
entry_at i = record (candidate 1 2 3 none) { iteration = i }

abbrev decision : ℕ → String → PlannerDecision ℕ
decision i tag = record {
  iteration = i;
  search_tag = tag;
  used_llm = false;
  rationale = "";
  rationale_ko = none;
  anomaly_note = none;
  layer_configs = [];
}

-- Four candidates out of order, of which the first two were made by the warm-up, and one that no
-- decision belongs to.
abbrev rows : List (Row ℕ)
rows =
    iteration_rows (decision 1 "warm-up" ∷ decision 2 "warm-up" ∷ decision 3 "surrogate" ∷ [])
      (entry_at 3 ∷ entry_at 1 ∷ entry_at 2 ∷ entry_at 4 ∷ [])

two_batches :
    (table_rows patterns rows
      ≡ warmup_group (
          joined (entry_at 1) (some (decision 1 "warm-up"))
          ∷ joined (entry_at 2) (some (decision 2 "warm-up"))
          ∷ [])
        ∷ single (joined (entry_at 3) (some (decision 3 "surrogate")))
        ∷ single (joined (entry_at 4) none)
        ∷ [])
    × (search_phase_summary patterns rows ≡ unnamed)
unfolding table_rows table_blocks ordered insert_row iteration_rows decision_at joined is_warmup_row
    warmup_run grouped search_phase_summary
two_batches = (refl, refl)

table_rows-shown_example :
    InOrder (shown (table_rows patterns rows))
    × ((test : Row ℕ → Bool) → count test (shown (table_rows patterns rows)) ≡ count test rows)
    × All (Collapsed patterns) (table_rows patterns rows)
table_rows-shown_example = table_rows-shown patterns rows

-- Two sessions, with several checkpoints of each.
abbrev states : String → Snapshot ℕ
states id = if str_eq id "a" then paused evaluated else complete fresh

abbrev threads : List String
threads = "b" ∷ "a" ∷ "b" ∷ "a" ∷ []

listed :
    list_sessions states threads
    ≡ session_row "b" (complete fresh) ∷ session_row "a" (paused evaluated) ∷ []
unfolding list_sessions list_unseen
listed = refl

list_sessions-once_example : rows_of "a" (list_sessions states threads) ≡ 1
list_sessions-once_example = list_sessions-once states "a" threads

-- Six images to train and validate on, four to test on.
abbrev six : List ℕ
six = 4 ∷ 0 ∷ 5 ∷ 2 ∷ 1 ∷ 3 ∷ []

abbrev four : List ℕ
four = 3 ∷ 1 ∷ 0 ∷ 2 ∷ []

-- The whole split, of which two images validate; then more images that validate than there are, which
-- is not refused, and validates on fewer than were asked for.
splits :
    (resolve_split_sizes full_split 2 (images 3) 6 4 ≡ ok (pos 4, 3))
    × (resolve_split_sizes full_split 8 (images 3) 6 4 ≡ ok (negsuc 1, 3))
    × (length (Loaders.val_idx (loaders six four 8 (negsuc 1, 3))) ≡ 2)
    × (resolve_split_sizes (images 5) 2 (images 3) 6 4 ≡ raise "ValueError")
unfolding resolve_split_sizes loaders
splits = (refl, refl, refl, refl)

loaders-split_example :
    ((rest : List ℕ) × (Loaders.train_idx (loaders six four 2 (pos 4, 3))
          ++ (Loaders.val_idx (loaders six four 2 (pos 4, 3)) ++ rest)
        ≡ six))
    × (length (Loaders.train_idx (loaders six four 2 (pos 4, 3))) ≡ training_images full_split 2 6)
    × (length (Loaders.val_idx (loaders six four 2 (pos 4, 3))) ≡ 2)
    × (length (Loaders.test_idx (loaders six four 2 (pos 4, 3))) ≡ test_size_of (images 3) 4)
loaders-split_example =
    loaders-split full_split (images 3) 2 6 4 six four (pos 4, 3) refl refl (omega arith) splits.0

-- A numeric part ends the stage's name.
stages :
    (stage_of (λ part. str_eq part "2") ("features" ∷ "2" ∷ "conv" ∷ []) ≡ "features" ∷ "2" ∷ [])
    × (stage_of (λ part. str_eq part "2") ("head" ∷ "fc" ∷ []) ≡ "head" ∷ [])
unfolding stage_of
stages = (refl, refl)

abbrev environment : QatEnv
environment = record {
  variables = ("AUTOCIM_QAT_TRAIN_SIZE", "full") ∷ ("AUTOCIM_QAT_SEED", "x") ∷ [];
  parse_int = λ text. none;
  strip = λ text. text;
  lower = λ text. text;
}

sizes :
    (resolve_size_env environment "AUTOCIM_QAT_TRAIN_SIZE" 512 true ≡ full_split)
    × (resolve_size_env environment "AUTOCIM_QAT_VAL_SIZE" 128 false ≡ images 128)
    × (resolve_int_env environment "AUTOCIM_QAT_SEED" 0 ≡ 0)
unfolding resolve_size_env resolve_int_env lookup
sizes = (refl, refl, refl)

abbrev texts : ModelTexts
texts = record { provider_of = λ model. "openai"; missing_key = λ model key. key }

-- A provider whose key is not set, the same one with its key, and no model at all.
models :
    (resolve_planner_model
        (record quiet { variables = ("AUTOCIM_PLANNER_MODEL", "openai:m") ∷ [] })
        texts
      ≡ (default_local_model, some "OPENAI_API_KEY"))
    × (resolve_planner_model
          (record quiet {
            variables = ("AUTOCIM_PLANNER_MODEL", "openai:m") ∷ ("OPENAI_API_KEY", "k") ∷ [];
          })
          texts
        ≡ ("openai:m", none))
    × (resolve_planner_model quiet texts ≡ (default_local_model, none))
unfolding resolve_planner_model key_missing provider_api_key_env lookup
models = (refl, refl, refl)

abbrev call : Bool → LlmCallRecord ℕ
call succeeded = record {
  node = "planner";
  iteration = 1;
  attempts = 3;
  succeeded = succeeded;
  latency_ms = 0;
  input_tokens = none;
  output_tokens = none;
  total_tokens = none;
  estimated_cost_usd = none;
  error = none;
}

usage :
    llm_usage_summary (call true ∷ call false ∷ [])
    ≡ record { n_calls = 2; total_attempts = 6; n_failed = 1 }
unfolding llm_usage_summary
usage = refl

abbrev plain : Json String
plain = record { dumps = λ value. value; loads = λ text. text }

-- Two writes of one memory and one of the other.
abbrev writes : List (Namespace × String × String)
writes =
    (model_namespace "m", "pareto_solutions", "new")
    ∷ (hw_namespace "m", "calibration_factors", "f")
    ∷ (model_namespace "m", "pareto_solutions", "old")
    ∷ []

sqlite_get-writes_example :
    sqlite_get plain (sqlite_writes plain writes) (model_namespace "m") "pareto_solutions"
    ≡ get (memory_writes plain writes) (model_namespace "m") "pareto_solutions"
sqlite_get-writes_example =
    sqlite_get-writes plain writes (model_namespace "m") "pareto_solutions" (λ v. refl)
      (of_model "m", (of_hw "m", (of_model "m", tt))) (of_model "m")

stored :
    sqlite_get plain (sqlite_writes plain writes) (model_namespace "m") "pareto_solutions"
    ≡ some "new"
unfolding sqlite_get sqlite_put select_value upsert namespace_key
stored = refl
