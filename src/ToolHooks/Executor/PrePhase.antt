-- ===== src/ToolHooks/Executor/PrePhase.antt =====
-- The pre phase of agent/tool_hooks/executor.py: `_run_pre_hooks`, hook by hook.
use minicode_agent_runtime.Prelude.{
  String, true, ◌≡◌, List, [], ◌∷◌, ◌++◌, truthy, str_eq, strip, Bool-cases, inl, inr, Bool,
}
use minicode_agent_runtime.Prelude.Dict.{Dict}
use minicode_agent_runtime.ToolHooks.{
  ToolExecutionRequest, ToolHook, same_event, HookDecision, pre_tool_use, Result, HookOutcome, deny,
  raised, pass, ok,
}
use minicode_agent_runtime.ToolHooks.Executor.{
  Trail, PreStep, next, refuse, fail, PreResult, returned, threw, deny_reason, continue_pre,
  pre_step, run_pre_hooks, after_pre_run, after_pre_match, decide_outcome, pre_context,
}
use mathlib.Core.Bool.{false}

-- A denial has a reason that is not empty, also where the hook gave none.
pub deny_reason-truthy : (reason : String) → truthy (deny_reason reason) ≡ true
deny_reason-truthy reason = elim (Bool-cases (str_eq (strip reason) "")) [
  | inl e ↦ rw e
  | inr e ↦ rw (e, e)
]

module _ {Any W : Type 0} where
  -- A step that does not refuse with an empty reason.
  abbrev pub Speaks : PreStep Any W → Type 0
  Speaks (refuse reason arguments trail w) = truthy reason ≡ true
  Speaks _ = Unit

  -- The step refuses.
  abbrev pub Refuses : PreStep Any W → Type 0
  Refuses (refuse reason arguments trail w) = truthy reason ≡ true
  Refuses _ = ⊥

  -- The phase ends with a denial, or by an exception.
  abbrev pub IsBlocked : PreResult Any W → Type 0
  IsBlocked (returned reason arguments trail w) = truthy reason ≡ true
  IsBlocked (threw e trail w) = Unit

  decide_outcome-Speaks :
      (d : HookDecision) (reason : String) (arguments : Dict Any) (trail : Trail) (w : W)
      → Speaks (decide_outcome d reason arguments trail w)
  unfolding decide_outcome
  decide_outcome-Speaks deny reason arguments trail w = deny_reason-truthy reason
  decide_outcome-Speaks pass reason arguments trail w = tt

  after_pre_run-Speaks :
      (hook : ToolHook Any W) (arguments : Dict Any) (trail : Trail)
      (r : Result (HookOutcome Any) × W)
      → Speaks (after_pre_run hook arguments trail r)
  unfolding after_pre_run
  after_pre_run-Speaks hook arguments trail (raised e, w) = tt
  after_pre_run-Speaks hook arguments trail (ok outcome, w) =
      decide_outcome-Speaks outcome.decision outcome.reason _ _ w

  after_pre_match-Speaks :
      (hook : ToolHook Any W) (request : ToolExecutionRequest Any) (arguments : Dict Any)
      (trail : Trail) (r : Result Bool × W)
      → Speaks (after_pre_match hook request arguments trail r)
  unfolding after_pre_match
  after_pre_match-Speaks hook request arguments trail (raised e, w) = tt
  after_pre_match-Speaks hook request arguments trail (ok false, w) = tt
  after_pre_match-Speaks hook request arguments trail (ok true, w) =
      after_pre_run-Speaks hook arguments trail (hook.run (pre_context request arguments) w)

  pub pre_step-Speaks :
      (hook : ToolHook Any W) (request : ToolExecutionRequest Any) (arguments : Dict Any)
      (trail : Trail) (w : W)
      → Speaks (pre_step hook request arguments trail w)
  unfolding pre_step
  pre_step-Speaks hook request arguments trail w =
      elim (Bool-cases (same_event hook.event pre_tool_use)) [
        | inl e ↦ rw e (
            after_pre_match-Speaks hook request arguments trail
              (hook.matches (pre_context request arguments) w))
        | inr e ↦ rw e tt
      ]

  IsBlocked-continue :
      (k : Dict Any → Trail → W → PreResult Any W) (s : PreStep Any W)
      → ((arguments : Dict Any) (trail : Trail) (w : W) → IsBlocked (k arguments trail w))
      → Speaks s
      → IsBlocked (continue_pre k s)
  IsBlocked-continue k (next arguments trail w) h speaks = h arguments trail w
  IsBlocked-continue k (refuse reason arguments trail w) h speaks = speaks
  IsBlocked-continue k (fail e trail w) h speaks = tt

  IsBlocked-Refuses :
      (k : Dict Any → Trail → W → PreResult Any W) (s : PreStep Any W)
      → Refuses s
      → IsBlocked (continue_pre k s)
  IsBlocked-Refuses k (refuse reason arguments trail w) r = r
  IsBlocked-Refuses k (next arguments trail w) r = absurd r
  IsBlocked-Refuses k (fail e trail w) r = tt

  -- A hook that refuses blocks the phase wherever it stands: no hook before it lets the call
  -- through, and none behind it is asked.
  pub run_pre_hooks-IsBlocked :
      (before after : List (ToolHook Any W)) (hook : ToolHook Any W)
      (request : ToolExecutionRequest Any)
      → ((arguments : Dict Any) (trail : Trail) (w : W)
          → Refuses (pre_step hook request arguments trail w))
      → (arguments : Dict Any) (trail : Trail) (w : W)
      → IsBlocked (run_pre_hooks (before ++ hook ∷ after) request arguments trail w)
  unfolding run_pre_hooks
  run_pre_hooks-IsBlocked [] after hook request r arguments trail w =
      IsBlocked-Refuses (run_pre_hooks after request) (pre_step hook request arguments trail w)
        (r arguments trail w)
  run_pre_hooks-IsBlocked (first ∷ before) after hook request r arguments trail w =
      IsBlocked-continue (run_pre_hooks (before ++ hook ∷ after) request)
        (pre_step first request arguments trail w)
        (run_pre_hooks-IsBlocked before after hook request r)
        (pre_step-Speaks first request arguments trail w)
