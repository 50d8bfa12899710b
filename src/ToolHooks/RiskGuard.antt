-- ===== src/ToolHooks/RiskGuard.antt =====
-- agent/tool_hooks/builtin.py: `ToolRiskGuardHook`, and what it does among other hooks.
use Prim.Native.String.{◌++◌ as str_append}
use minicode_agent_runtime.Prelude.{
  String, true, false, ◌≡◌, ◌≢◌, Option, none, some, List, [], ◌∷◌, ◌++◌, contains, truthy, or_text,
  strip, if◌then◌else◌,
}
use minicode_agent_runtime.ToolHooks.{
  HookContext, HookOutcome, pre_tool_use, pass, deny, ToolExecutionRequest, ok, Call, ToolHook,
  success, Dict,
}
use minicode_agent_runtime.ToolHooks.Executor.{Trail, pre_step, Invoker, execute, empty_trail}
use minicode_agent_runtime.ToolHooks.Executor.Outcomes.{execute-blocked}
use minicode_agent_runtime.ToolHooks.Executor.PrePhase.{
  Refuses, deny_reason-truthy, run_pre_hooks-IsBlocked,
}

-- `allowed_risks or {...}`: the empty set, too, is replaced by the default.
unfoldable pub allowed_set : Option (List String) → List String
allowed_set none = "read-only" ∷ "write" ∷ "external-side-effect" ∷ []
allowed_set (some []) = "read-only" ∷ "write" ∷ "external-side-effect" ∷ []
allowed_set (some (r ∷ rs)) = r ∷ rs

-- `(ctx.request.tool_risk or "read-only").strip() or "read-only"`
unfoldable pub risk_of : {Any : Type 0} → ToolExecutionRequest Any → String
risk_of request = or_text (strip (or_text request.tool_risk "read-only")) "read-only"

-- `observe` is the metric of a denial, `observe_tool_denied`.
module _ {Any W : Type 0} (observe : String → W → W) (allowed : List String) (prefix : String) where
  guard_run : HookContext Any → Call W (HookOutcome Any)
  guard_run ctx w =
      let risk = risk_of ctx.request in
      if contains allowed risk
      then (
        ok (record {
          decision = pass;
          updated_input = none;
          extra_message = "";
          reason = str_append "risk allowed: " risk;
        }),
        w,
      )
      else (
        ok (record {
          decision = deny;
          updated_input = none;
          extra_message = "";
          reason = str_append prefix (str_append ": " risk);
        }),
        observe risk w,
      )

  -- `ToolRiskGuardHook`
  unfoldable pub risk_guard : ToolHook Any W
  unfolding guard_run
  risk_guard = record {
    name = "tool_risk_guard";
    event = pre_tool_use;
    matches = λ ctx w. (ok (truthy ctx.request.tool_name), w);
    run = guard_run;
  }

  risk_guard-Refuses :
      (request : ToolExecutionRequest Any)
      → truthy request.tool_name ≡ true
      → contains allowed (risk_of request) ≡ false
      → (arguments : Dict Any) (trail : Trail) (w : W)
      → Refuses (pre_step risk_guard request arguments trail w)
  unfolding pre_step risk_guard
  risk_guard-Refuses request named refused arguments trail w =
      rw (named, refused)
        (deny_reason-truthy (str_append prefix (str_append ": " (risk_of request))))

  -- Whatever hooks stand before and behind ToolRiskGuardHook, a call of a named tool whose risk is
  -- not among the allowed ones has the same result and the same effects for every invoker, and its
  -- status is not success: the tool does not run.
  pub execute-risk_guard :
      (text : String → Any) (before after : List (ToolHook Any W))
      (request : ToolExecutionRequest Any) (invoker other : Invoker Any W) (w : W)
      → truthy request.tool_name ≡ true
      → contains allowed (risk_of request) ≡ false
      → let hooks = before ++ risk_guard ∷ after in
        (execute text hooks request other w ≡ execute text hooks request invoker w)
        × ((execute text hooks request invoker w).0.status ≢ success)
  execute-risk_guard text before after request invoker other w named refused =
      execute-blocked text (before ++ risk_guard ∷ after) request invoker other w (
        run_pre_hooks-IsBlocked before after risk_guard request
          (risk_guard-Refuses request named refused) request.arguments (empty_trail []) w)
