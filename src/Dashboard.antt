-- ===== src/Dashboard.antt =====
-- tools/dashboard.py: what a report shows, before it is written as HTML: the rows, their order, the
-- blocks of the table, the phase of the search, and the use of the model.
pub mod Table
use autocim_agent.Prelude.{
  ℕ, zero, suc, ◌+◌, String, ◌==◌, leb, Bool, true, false, not, Option, none, some, List, [], ◌∷◌,
  length, count, get_or, is_some, if◌then◌else◌,
}
use autocim_agent.State.{CandidateEntry, LlmCallRecord, PlannerDecision}

-- A row: a candidate, with what the planner's decision of its iteration says.
pub record Row (F : Type 0) : Type 0 where
  pub candidate : CandidateEntry F
  pub search_tag : Option String
  pub rationale : Option String
  pub rationale_ko : Option String
  pub used_llm : Option Bool

module _ {F : Type 0} where
  -- `decisions.get(iteration)`; of two decisions of one iteration, the later one counts.
  unfoldable pub decision_at : List (PlannerDecision F) → ℕ → Option (PlannerDecision F)
  decision_at [] i = none
  decision_at (d ∷ decisions) i = elim (decision_at decisions i) [
    | some later ↦ some later
    | none ↦ if d.iteration == i then some d else none
  ]

  unfoldable pub joined : CandidateEntry F → Option (PlannerDecision F) → Row F
  joined c none = record {
    candidate = c;
    search_tag = none;
    rationale = none;
    rationale_ko = none;
    used_llm = none;
  }
  joined c (some d) = record {
    candidate = c;
    search_tag = some d.search_tag;
    rationale = some d.rationale;
    rationale_ko = d.rationale_ko;
    used_llm = some d.used_llm;
  }

  unfoldable pub iteration_rows : List (PlannerDecision F) → List (CandidateEntry F) → List (Row F)
  iteration_rows decisions [] = []
  iteration_rows decisions (c ∷ history) =
      joined c (decision_at decisions c.iteration) ∷ iteration_rows decisions history

  abbrev pub iteration_of : Row F → ℕ
  iteration_of r = CandidateEntry.iteration r.candidate

  -- `sorted(rows, key=…)`, which leaves equal iterations in their order.
  unfoldable pub insert_row : Row F → List (Row F) → List (Row F)
  insert_row r [] = r ∷ []
  insert_row r (s ∷ rows) =
      let rest = insert_row r rows in
      if leb (iteration_of r) (iteration_of s) then r ∷ s ∷ rows else s ∷ rest

  unfoldable pub ordered : List (Row F) → List (Row F)
  ordered [] = []
  ordered (r ∷ rows) = insert_row r (ordered rows)

-- What the two regular expressions of the search tags find: the two numbers of a warm-up tag, and the
-- number of a surrogate tag.
pub record TagPatterns : Type 0 where
  pub warmup_tag : String → Option (ℕ × ℕ)
  pub surrogate_tag : String → Option ℕ

-- A block of the table: a row, or a batch of warm-up rows under one heading.
pub data Block (F : Type 0) : Type 0 where
  single : Row F → Block F
  warmup_group : List (Row F) → Block F

-- What the report says of the search: nothing yet, a warm-up with its number and its total, the
-- surrogate with its prior candidates, or no word.
pub data Phase : Type 0 where
  nothing_yet : Phase
  warming_up : ℕ → ℕ → Phase
  optimising : ℕ → Phase
  unnamed : Phase

phase_of_tag : TagPatterns → String → Phase
phase_of_tag patterns tag = elim (patterns.warmup_tag tag) [
  | some (done, total) ↦ warming_up done total
  | none ↦ elim (patterns.surrogate_tag tag) [ some prior ↦ optimising prior | none ↦ unnamed ]
]

module _ {F : Type 0} (patterns : TagPatterns) where
  unfoldable pub is_warmup_row : Row F → Bool
  is_warmup_row r = is_some (patterns.warmup_tag (get_or r.search_tag ""))

  -- The inner loop: the warm-up rows in front, and the rows from `j` on.
  unfoldable pub warmup_run : List (Row F) → List (Row F) × List (Row F)
  warmup_run [] = ([], [])
  warmup_run (r ∷ rows) =
      let (run, rest) = warmup_run rows in
      if is_warmup_row r then (r ∷ run, rest) else ([], r ∷ rows)

  -- A warm-up row that stands alone is not collapsed.
  unfoldable pub grouped : Row F → List (Row F) → Block F
  grouped r [] = single r
  grouped r (s ∷ run) = warmup_group (r ∷ s ∷ run)

  -- The outer loop, at most `turns` times round.
  unfoldable pub table_blocks : (turns : ℕ) → List (Row F) → List (Block F)
  unfolding warmup_run
  table_blocks zero rows = []
  table_blocks (suc turns) [] = []
  table_blocks (suc turns) (r ∷ rows) = elim (is_warmup_row r) [
    | true ↦ let (run, rest) = warmup_run rows in grouped r run ∷ table_blocks turns rest
    | false ↦ single r ∷ table_blocks turns rows
  ]

  -- `_table_rows_html`; the loop takes a row in every turn.
  unfoldable pub table_rows : List (Row F) → List (Block F)
  unfolding table_blocks ordered
  table_rows rows = table_blocks (length (ordered rows)) (ordered rows)

  -- The phase that the last row tells, `_search_phase_summary_html`.
  last_phase : List (Row F) → Phase
  last_phase [] = nothing_yet
  last_phase (r ∷ []) = phase_of_tag patterns (get_or r.search_tag "")
  last_phase (r ∷ s ∷ rows) = last_phase (s ∷ rows)

  unfoldable pub search_phase_summary : List (Row F) → Phase
  unfolding last_phase phase_of_tag ordered
  search_phase_summary rows = last_phase (ordered rows)

-- `_llm_usage_summary`: the calls, their attempts, and the calls that failed.
pub record UsageSummary : Type 0 where
  pub n_calls : ℕ
  pub total_attempts : ℕ
  pub n_failed : ℕ

module _ {F : Type 0} where
  abbrev pub attempts_of : List (LlmCallRecord F) → ℕ
  attempts_of [] = 0
  attempts_of (u ∷ usage) = u.attempts + attempts_of usage

  unfoldable pub llm_usage_summary : List (LlmCallRecord F) → UsageSummary
  llm_usage_summary usage = record {
    n_calls = length usage;
    total_attempts = attempts_of usage;
    n_failed = count (λ u. not (LlmCallRecord.succeeded u)) usage;
  }
