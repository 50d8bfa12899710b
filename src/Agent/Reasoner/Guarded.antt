-- ===== src/Agent/Reasoner/Guarded.antt =====
-- agent/core/reasoner.py with agent/tool_hooks: `reasoner_hooks` stand between the model and the
-- tools in every turn.
use minicode_agent_runtime.Prelude.{
  ℕ, String, Bool, true, false, ◌≡◌, ◌≢◌, refl, List, ◌∷◌, ◌++◌, Option, Bool-cases, inl, inr,
  contains, str_eq, truthy, eq_iff, strip, or_text,
}
use minicode_agent_runtime.ToolHooks.{ToolHook, ToolExecStatus, success, denied, error}
use minicode_agent_runtime.ToolHooks.RiskGuard.{risk_guard, risk_of, execute-risk_guard}
use minicode_agent_runtime.Tools.Registry.{get_tool_risk}
use minicode_agent_runtime.Agent.Reasoner.{ToolCall, LoopState, Services}
use minicode_agent_runtime.Agent.Reasoner.Calls.{
  run_call, execute_call, is_success, request_of, invoke, exclude_names,
}
use minicode_agent_runtime.Agent.Reasoner.Visible.{run_call-names, append_if_none}
use minicode_agent_runtime.Agent.Reasoner.Loop.{run, start_state}
use minicode_agent_runtime.Agent.Reasoner.Loop.Invariants.{iterate-EndsKept, Told}

-- The risk that ToolRiskGuardHook reads from a registry
abbrev pub guarded_risk : String → String
guarded_risk risk = or_text (strip (or_text risk "read-only")) "read-only"

is_success_ne : (status : ToolExecStatus) → status ≢ success → is_success status ≡ false
is_success_ne success h = absurd (h refl)
is_success_ne denied h = refl
is_success_ne error h = refl

-- A name that was not used
abbrev pub Unused : String → List String → Option (List String) → Type 0
Unused name used visible = contains used name ≡ false

module _ {Any W : Type 0} (s : Services Any W) (observe : String → W → W) (allowed : List String)
    (prefix : String) (before after : List (ToolHook Any W)) (name : String)
    (named : truthy name ≡ true)
    (risky : (w : W)
      → contains allowed (guarded_risk (get_tool_risk (s.registry w) name)) ≡ false) where
  abbrev guarded : Services Any W
  guarded = record s { hooks = before ++ risk_guard observe allowed prefix ∷ after }

  risky_as :
      (other : String) (w : W)
      → other ≡ name
      → contains allowed (guarded_risk (get_tool_risk (s.registry w) other)) ≡ false
  risky_as other w e = rw e (risky w)

  execute_call-refused :
      (c : ToolCall Any) (st : LoopState Any W)
      → c.name ≡ name
      → is_success (execute_call guarded c st).0.status ≡ false
  unfolding execute_call risk_of request_of exclude_names
  execute_call-refused c st e =
      let w = exclude_names guarded c st.visible st.world in
      is_success_ne (execute_call guarded c st).0.status (
        (execute-risk_guard observe allowed prefix s.of_text before after (request_of guarded c w)
          (invoke guarded) (invoke guarded) w (rw e named) (risky_as c.name w e)).1)

  run_call-Unused :
      (c : ToolCall Any) (st : LoopState Any W)
      → Unused name st.tools_used st.visible
      → Unused name (run_call guarded c st).1.tools_used (run_call guarded c st).1.visible
  run_call-Unused c st h = run_call-names guarded (Unused name) c st h (λ e.
      elim (Bool-cases (str_eq c.name name)) [
        | inl same ↦ rw (execute_call-refused c st ((eq_iff c.name name).0 same)) h
        | inr other ↦
            append_if_none (is_success (execute_call guarded c st).0.status) st.tools_used c.name
              name h other
      ])

  -- When ToolRiskGuardHook stands among the hooks, whatever the others are, and the risk of a
  -- named tool is never allowed, then, however run ends, by a result or by an exception after any
  -- number of calls, the tool is not among the tools that succeeded, neither in the result nor in
  -- the state in which run ended.
  pub run-risk_guard :
      (max_iterations : ℕ) (tool_search_enabled : Bool) (initial : List Any)
      (preloaded : Option (List String)) (w : W)
      → let (r, st) =
          run
            (record s { hooks = before ++ risk_guard observe allowed prefix ∷ after })
            max_iterations
            tool_search_enabled
            initial
            preloaded
            w in
        Told (Unused name) r × (contains st.tools_used name ≡ false)
  unfolding run start_state
  run-risk_guard max_iterations tool_search_enabled initial preloaded w =
      iterate-EndsKept guarded (Unused name) run_call-Unused max_iterations 0
        (start_state guarded tool_search_enabled initial preloaded w) refl
