-- ===== src/Middleware/Contained.antt =====
-- The caller of a wrapped tool cannot choose the context or the hardware.
use mathlib.Core.Path.{fun_ext}
use autocim_agent.Prelude.{
  String, str_eq, eq_iff, ◌≡◌, refl, ap, ◌∙◌, true, false, Option, none, some, arith, Exc, ok,
  raise, if◌then◌else◌,
}
use autocim_agent.Schemas.{HwConfig, ExecutionContext, ToolResult}
use autocim_agent.Middleware.{
  Registry, get_hw_config, get_execution_context, Arg, context_arg, hw_arg, Kwargs, InputSchema,
  assign, inject, call_tool, wrap_tool_call,
}

module _ {F A : Type 0} where
  assign-assign :
      (key : String) (v w : Arg F A) (kwargs : Kwargs F A)
      → assign key v (assign key w kwargs) ≡ assign key v kwargs
  assign-assign key v w kwargs = fun_ext λ name. ground arith

  assign_comm :
      (j k : String) (v w : Arg F A) (kwargs : Kwargs F A)
      → str_eq j k ≡ false
      → assign j v (assign k w kwargs) ≡ assign k w (assign j v kwargs)
  assign_comm j k v w kwargs h =
      fun_ext λ name. ground (arith, eq_iff name j, eq_iff name k, eq_iff j k)

module _ {F A I : Type 0} (schema : InputSchema F A I) where
  inject-context :
      (context : Option ExecutionContext) (registry : Registry F) (kwargs : Kwargs F A)
      (v : Arg F A)
      → inject schema context registry (assign "execution_context" v kwargs)
        ≡ inject schema context registry kwargs
  unfolding inject get_execution_context
  inject-context none registry kwargs v = refl
  inject-context (some c) registry kwargs v =
      ap (finish registry c) (assign-assign "execution_context" (context_arg c) v kwargs)
    where
      finish : Registry F → ExecutionContext → Kwargs F A → Exc (Kwargs F A)
      finish r c' k =
          if schema.needs_hw
          then elim (get_hw_config c'.hw_spec_id r) [
            | raise e ↦ raise e
            | ok hw ↦ ok (assign "hw_config" (hw_arg hw) k)
          ]
          else ok k

  inject-hw :
      schema.needs_hw ≡ true
      → (context : Option ExecutionContext) (registry : Registry F) (kwargs : Kwargs F A)
        (w : Arg F A)
      → inject schema context registry (assign "hw_config" w kwargs)
        ≡ inject schema context registry kwargs
  unfolding inject get_execution_context
  inject-hw needs none registry kwargs w = refl
  inject-hw needs (some c) registry kwargs w =
      rw (needs, inject) (finish (get_hw_config c.hw_spec_id registry))
    where
      own : Kwargs F A → Kwargs F A
      own = assign "execution_context" (context_arg c)

      same :
          (hw : HwConfig F)
          → assign "hw_config" (hw_arg hw) (own (assign "hw_config" w kwargs))
            ≡ assign "hw_config" (hw_arg hw) (own kwargs)
      same hw =
          ap (assign "hw_config" (hw_arg hw))
            (assign_comm "execution_context" "hw_config" _ w kwargs refl)
          ∙ assign-assign "hw_config" (hw_arg hw) w (own kwargs)

      finish :
          (r : Exc (HwConfig F))
          → ◌≡◌ {A = Exc (Kwargs F A)}
              (elim r [
                | raise e ↦ raise e
                | ok hw ↦ ok (assign "hw_config" (hw_arg hw) (own (assign "hw_config" w kwargs)))
              ])
              (elim r [
                | raise e ↦ raise e
                | ok hw ↦ ok (assign "hw_config" (hw_arg hw) (own kwargs))
              ])
      finish (raise e) = refl
      finish (ok hw) = ap ok (same hw)

  -- Whatever a caller supplies under the two names, the wrapped call is the one without them.
  wrap_tool_call-overwritten :
      schema.needs_hw ≡ true
      → (report : String → String) (node_name : String) (tool : I → Exc (ToolResult F))
      → (context : Option ExecutionContext) (registry : Registry F) (kwargs : Kwargs F A)
      → (v w : Arg F A)
      → wrap_tool_call report schema node_name tool context registry
          (assign "execution_context" v (assign "hw_config" w kwargs))
        ≡ wrap_tool_call report schema node_name tool context registry kwargs
  unfolding wrap_tool_call call_tool
  wrap_tool_call-overwritten needs report node_name tool context registry kwargs v w = rw (
    inject-context context registry (assign "hw_config" w kwargs) v
        ∙ inject-hw needs context registry kwargs w,
    call_tool,
  )

  -- What the schema is constructed from, in a run with a context.
  injected : ExecutionContext → HwConfig F → Kwargs F A → Kwargs F A
  injected c hw kwargs =
      assign "hw_config" (hw_arg hw) (assign "execution_context" (context_arg c) kwargs)

  assign-other :
      (key : String) (v : Arg F A) (kwargs : Kwargs F A) (name : String)
      → str_eq key name ≡ false
      → assign key v kwargs name ≡ kwargs name
  assign-other key v kwargs name h = ground (arith, eq_iff name key, eq_iff key name)

  injected-other :
      (c : ExecutionContext) (hw : HwConfig F) (kwargs : Kwargs F A) (name : String)
      → str_eq "execution_context" name ≡ false
      → str_eq "hw_config" name ≡ false
      → injected c hw kwargs name ≡ kwargs name
  unfolding injected
  injected-other c hw kwargs name a b =
      assign-other "hw_config" (hw_arg hw) (assign "execution_context" (context_arg c) kwargs) name
        b
      ∙ assign-other "execution_context" (context_arg c) kwargs name a

  inject-registered :
      schema.needs_hw ≡ true
      → (c : ExecutionContext) (registry : Registry F) (kwargs : Kwargs F A) (hw : HwConfig F)
      → get_hw_config c.hw_spec_id registry ≡ ok hw
      → inject schema (some c) registry kwargs ≡ ok (injected c hw kwargs)
  unfolding inject get_execution_context injected
  inject-registered needs c registry kwargs hw found = rw (needs, found) refl

  -- Where the input schema of a tool needs the hardware, and the run has a context whose hardware is
  -- registered: whatever a caller supplies under `execution_context` and `hw_config`, the input of
  -- the tool is constructed from arguments that have the run's own context and the registered
  -- hardware there and the caller's values under all other names, and the result is the one without
  -- what the caller supplied under the two names.
  pub wrap_tool_call-injected :
      schema.needs_hw ≡ true
      → (report : String → String) (node_name : String) (tool : I → Exc (ToolResult F))
      → (c : ExecutionContext) (registry : Registry F) (hw : HwConfig F)
      → get_hw_config c.hw_spec_id registry ≡ ok hw
      → (kwargs : Kwargs F A) (v w : Arg F A)
      → let supplied = assign "execution_context" v (assign "hw_config" w kwargs) in
        (args : Kwargs F A) × (inject schema (some c) registry supplied ≡ ok args)
        × (args "execution_context" ≡ some (context_arg c))
        × (args "hw_config" ≡ some (hw_arg hw))
        × ((name : String)
            → str_eq "execution_context" name ≡ false
            → str_eq "hw_config" name ≡ false
            → args name ≡ kwargs name)
        × (wrap_tool_call report schema node_name tool (some c) registry supplied
            ≡ wrap_tool_call report schema node_name tool (some c) registry kwargs)
  unfolding injected
  wrap_tool_call-injected needs report node_name tool c registry hw found kwargs v w = (
    injected c hw kwargs,
    inject-context (some c) registry (assign "hw_config" w kwargs) v
        ∙ (inject-hw needs (some c) registry kwargs w
            ∙ inject-registered needs c registry kwargs hw found),
    refl,
    refl,
    λ name a b. injected-other c hw kwargs name a b,
    wrap_tool_call-overwritten needs report node_name tool (some c) registry kwargs v w,
  )
