-- ===== src/Middleware/Window.antt =====
-- The view that the model gets has a bounded number of messages.
use autocim_agent.Prelude.{ℕ, ◌+◌, ◌-◌, ◌≤◌, String, List, arith, length, length-drop}
use autocim_agent.State.{Message}
use autocim_agent.Middleware.{ContextPruningConfig, get_pruned_context}

-- The pruned context has at most one message more than the configured number.
pub length-get_pruned_context :
    (show : ℕ → String) (config : ContextPruningConfig) (messages : List Message)
    → length (get_pruned_context show config messages) ≤ config.max_recent_messages + 1
unfolding get_pruned_context
length-get_pruned_context show config messages =
    ground (arith, length-drop (length messages - config.max_recent_messages) messages)
