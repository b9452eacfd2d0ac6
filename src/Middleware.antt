-- ===== src/Middleware.antt =====
-- middleware.py: the registry of hardware, the interceptor of tool calls, and the bounded view of
-- the messages.
pub mod Contained
pub mod Window
use autocim_agent.Prelude.{
  ℕ, ◌-◌, String, ◌<>◌, str_eq, Bool, Option, none, some, List, [], ◌∷◌, ◌++◌, leb, take, drop,
  length, Exc, ok, raise, if◌then◌else◌,
}
use autocim_agent.Prelude.Dict.{Dict, lookup, insert}
use autocim_agent.Schemas.{HwConfig, ExecutionContext, failed, ToolResult, model_dump}
use autocim_agent.State.{nested, Metrics, Message}

-- `_hw_config_registry`
abbrev pub Registry : Type 0 → Type 0
Registry F = Dict (HwConfig F)

module _ {F : Type 0} where
  unfoldable pub register_hw_config : HwConfig F → Registry F → Registry F
  register_hw_config hw registry = insert hw.hw_spec_id hw registry

  unfoldable pub get_hw_config : String → Registry F → Exc (HwConfig F)
  get_hw_config hw_spec_id registry = elim (lookup hw_spec_id registry) [
    | none ↦ raise ("No HWConfig registered for hw_spec_id=" <> hw_spec_id)
    | some hw ↦ ok hw
  ]

unfoldable pub get_execution_context : Option ExecutionContext → Exc ExecutionContext
get_execution_context none =
    raise "No ExecutionContext set for this run; call set_execution_context() first."
get_execution_context (some context) = ok context

-- A keyword argument of a tool: the two that are injected, or one of the tool's own, of type `A`.
pub data Arg (F A : Type 0) : Type 0 where
  context_arg : ExecutionContext → Arg F A
  hw_arg : HwConfig F → Arg F A
  own_arg : A → Arg F A

-- What pydantic makes of the keyword arguments, which it reads by name.
pub data Validated (I : Type 0) : Type 0 where
  valid : I → Validated I
  invalid : String → Validated I
  crashed : String → Validated I

abbrev pub Kwargs : Type 0 → Type 0 → Type 0
Kwargs F A = String → Option (Arg F A)

-- An input schema: whether it has the field `hw_config`, and its constructor.
pub record InputSchema (F A I : Type 0) : Type 0 where
  pub needs_hw : Bool
  pub construct : Kwargs F A → Validated I

module _ {F A : Type 0} where
  -- `raw_kwargs[key] = value`
  abbrev pub assign : String → Arg F A → Kwargs F A → Kwargs F A
  assign key value kwargs name = if str_eq name key then some value else kwargs name

module _ {F A I : Type 0} where
  -- The injection of the run's own context and hardware, over whatever the caller supplied.
  unfoldable pub inject :
      InputSchema F A I → Option ExecutionContext → Registry F → Kwargs F A → Exc (Kwargs F A)
  inject schema context registry kwargs = elim (get_execution_context context) [
    | raise e ↦ raise e
    | ok c ↦
        let with_context = assign "execution_context" (context_arg c) kwargs in
        if schema.needs_hw
        then elim (get_hw_config c.hw_spec_id registry) [
          | raise e ↦ raise e
          | ok hw ↦ ok (assign "hw_config" (hw_arg hw) with_context)
        ]
        else ok with_context
  ]

abbrev pub failure : {F : Type 0} → String → ToolResult F
failure e = record { status = failed; data_ = none; error = some e }

-- `report` renders an exception with its traceback.
module _ {F I : Type 0} (report : String → String) where
  run_tool : (I → Exc (ToolResult F)) → Validated I → ToolResult F
  run_tool tool (valid input) = elim (tool input) [ ok r ↦ r | raise e ↦ failure (report e) ]
  run_tool tool (invalid e) = failure ("ValidationError: " <> e)
  run_tool tool (crashed e) = failure (report e)

module _ {F A I : Type 0} (report : String → String) where
  -- The result of `wrapper`, before it is dumped.
  unfoldable pub call_tool :
      InputSchema F A I
      → (I → Exc (ToolResult F))
      → Option ExecutionContext
      → Registry F
      → Kwargs F A
      → ToolResult F
  unfolding run_tool inject
  call_tool schema tool context registry kwargs = elim (inject schema context registry kwargs) [
    | raise e ↦ failure (report e)
    | ok injected ↦ run_tool report tool (schema.construct injected)
  ]

  unfoldable pub wrap_tool_call :
      InputSchema F A I
      → String
      → (I → Exc (ToolResult F))
      → Option ExecutionContext
      → Registry F
      → Kwargs F A
      → Metrics F
  wrap_tool_call schema node_name tool context registry kwargs =
      (node_name, nested (model_dump (call_tool schema tool context registry kwargs))) ∷ []

-- `ContextPruningConfig`
pub record ContextPruningConfig : Type 0 where
  pub max_recent_messages : ℕ
  pub summarize_before_drop : Bool
  pub summary_max_chars : ℕ
  pub summarizer_fn : List Message → ℕ → String

-- `text[: max_chars - 3]` of a text, given as its characters; a negative end counts from the end.
abbrev pub all_but_dots : List ℕ → ℕ → List ℕ
all_but_dots text max_chars =
    if leb 3 max_chars then take (max_chars - 3) text else take (length text - (3 - max_chars)) text

unfoldable pub truncate_text : List ℕ → ℕ → List ℕ
truncate_text text max_chars =
    if leb (length text) max_chars
    then text
    else all_but_dots text max_chars ++ (b'.' ∷ b'.' ∷ b'.' ∷ [])

-- `" | ".join(...)` of the messages' texts, given as their characters.
abbrev pub joined_texts : (String → List ℕ) → List Message → List ℕ
joined_texts chars [] = []
joined_texts chars (m ∷ []) = chars m.content
joined_texts chars (m ∷ n ∷ messages) =
    chars m.content ++ (b' ' ∷ b'|' ∷ b' ' ∷ joined_texts chars (n ∷ messages))

-- `default_summarizer`, as the characters of its text.
unfoldable pub default_summarizer : (String → List ℕ) → List Message → ℕ → List ℕ
default_summarizer chars messages max_chars = truncate_text (joined_texts chars messages) max_chars

-- `show` renders the number of dropped messages.
unfoldable pub get_pruned_context :
    (ℕ → String) → ContextPruningConfig → List Message → List Message
get_pruned_context show config messages =
    let cutoff = length messages - config.max_recent_messages in
    let summary = config.summarizer_fn (take cutoff messages) config.summary_max_chars in
    if leb (length messages) config.max_recent_messages
    then messages
    else if config.summarize_before_drop
    then record {
      role = "system";
      content = "[context summary of " <> (show cutoff <> (" earlier messages] " <> summary));
    }
      ∷ drop cutoff messages
    else drop cutoff messages
