-- ===== src/ToolHooks/Executor.antt =====
-- agent/tool_hooks/executor.py: `ToolExecutor`, one tool call between its hooks.
pub mod PrePhase
pub mod Outcomes
use Prim.Native.String.{◌++◌ as str_append}
use minicode_agent_runtime.Prelude.{
  String, Bool, true, false, Option, none, some, List, [], ◌∷◌, ◌++◌, truthy, or_text, strip,
  if◌then◌else◌,
}
use minicode_agent_runtime.Prelude.Dict.{Dict}
use minicode_agent_runtime.ToolHooks.{
  HookEvent, pre_tool_use, post_tool_use, post_tool_error, HookDecision, pass, deny, same_event,
  event_text, ToolExecutionRequest, HookContext, HookOutcome, HookTraceItem, ToolExecutionResult,
  ToolExecStatus, success, denied, error, Result, ok, raised, Call, ToolHook,
}

-- The text of `HookExecutionError(name, event, cause)`.
abbrev pub hook_error : String → HookEvent → String → String
hook_error name event cause = str_append "hook " (
    str_append name
      (str_append " (" (str_append (event_text event) (str_append ") failed: " cause))))

-- `extra_messages` and `traces`, the two lists that a phase appends to; what was appended before
-- an exception stays.
pub record Trail : Type 0 where
  pub extra_messages : List String
  pub traces : List HookTraceItem

abbrev pub add_trace : Trail → HookTraceItem → Trail
add_trace t item = record t { traces = t.traces ++ item ∷ [] }

-- `if outcome.extra_message: extra_messages.append(...)`
abbrev pub add_message : Trail → String → Trail
add_message t m = record t {
  extra_messages = if truthy m then t.extra_messages ++ m ∷ [] else t.extra_messages;
}

abbrev pub unmatched : String → HookEvent → HookTraceItem
unmatched name event = record {
  hook_name = name;
  event = event;
  matched = false;
  decision = pass;
  reason = "";
  extra_message = "";
}

abbrev pub failed_open : String → HookEvent → Bool → String → HookTraceItem
failed_open name event matched cause = record {
  hook_name = name;
  event = event;
  matched = matched;
  decision = pass;
  reason = str_append "hook failed: " cause;
  extra_message = "";
}

abbrev pub ran : {Any : Type 0} → String → HookEvent → HookOutcome Any → HookTraceItem
ran name event outcome = record {
  hook_name = name;
  event = event;
  matched = true;
  decision = outcome.decision;
  reason = outcome.reason;
  extra_message = outcome.extra_message;
}

abbrev pub deny_reason : String → String
deny_reason reason = or_text (strip reason) "工具调用被拦截"

-- `outcome.updated_input`, if the hook gave one
abbrev pub updated : {Any : Type 0} → Option (Dict Any) → Dict Any → Dict Any
updated none arguments = arguments
updated (some input) arguments = input

abbrev pub pre_context : {Any : Type 0} → ToolExecutionRequest Any → Dict Any → HookContext Any
pre_context request arguments = record {
  event = pre_tool_use;
  request = request;
  current_arguments = arguments;
  result = none;
  error = "";
}

-- What `_run_pre_hooks` does at one hook: go on, return from the loop, or raise.
pub data PreStep (Any W : Type 0) : Type 0 where
  next : Dict Any → Trail → W → PreStep Any W
  refuse : String → Dict Any → Trail → W → PreStep Any W
  fail : String → Trail → W → PreStep Any W

-- The end of the loop: it returns a reason (empty: not denied) with the arguments, or raises.
pub data PreResult (Any W : Type 0) : Type 0 where
  returned : String → Dict Any → Trail → W → PreResult Any W
  threw : String → Trail → W → PreResult Any W

module _ {Any W : Type 0} where
  decide_outcome : HookDecision → String → Dict Any → Trail → W → PreStep Any W
  decide_outcome deny reason arguments trail w = refuse (deny_reason reason) arguments trail w
  decide_outcome pass reason arguments trail w = next arguments trail w

  after_pre_run : ToolHook Any W → Dict Any → Trail → Result (HookOutcome Any) × W → PreStep Any W
  after_pre_run hook arguments trail (raised e, w) =
      fail (hook_error hook.name hook.event e) trail w
  after_pre_run hook arguments trail (ok outcome, w) =
      decide_outcome outcome.decision outcome.reason (updated outcome.updated_input arguments)
        (add_trace (add_message trail outcome.extra_message) (ran hook.name hook.event outcome)) w

  after_pre_match :
      ToolHook Any W → ToolExecutionRequest Any → Dict Any → Trail → Result Bool × W → PreStep Any W
  after_pre_match hook request arguments trail (raised e, w) =
      fail (hook_error hook.name hook.event e) trail w
  after_pre_match hook request arguments trail (ok false, w) =
      next arguments (add_trace trail (unmatched hook.name hook.event)) w
  after_pre_match hook request arguments trail (ok true, w) =
      after_pre_run hook arguments trail (hook.run (pre_context request arguments) w)

  unfoldable pub pre_step :
      ToolHook Any W → ToolExecutionRequest Any → Dict Any → Trail → W → PreStep Any W
  unfolding decide_outcome after_pre_run after_pre_match
  pre_step hook request arguments trail w =
      if same_event hook.event pre_tool_use
      then after_pre_match hook request arguments trail
          (hook.matches (pre_context request arguments) w)
      else next arguments trail w

  -- The rest of the loop, `k`, after one hook.
  abbrev pub continue_pre :
      (Dict Any → Trail → W → PreResult Any W) → PreStep Any W → PreResult Any W
  continue_pre k (next arguments trail w) = k arguments trail w
  continue_pre k (refuse reason arguments trail w) = returned reason arguments trail w
  continue_pre k (fail e trail w) = threw e trail w

  -- `_run_pre_hooks`
  unfoldable pub run_pre_hooks :
      List (ToolHook Any W) → ToolExecutionRequest Any → Dict Any → Trail → W → PreResult Any W
  run_pre_hooks [] request arguments trail w = returned "" arguments trail w
  run_pre_hooks (hook ∷ hooks) request arguments trail w =
      continue_pre (run_pre_hooks hooks request) (pre_step hook request arguments trail w)

  -- A failure of a hook's method: recorded if the phase fails open, else the loop's exception.
  post_failure : Bool → ToolHook Any W → Bool → String → Trail → W → Option String × Trail × W
  post_failure true hook matched e trail w =
      (none, add_trace trail (failed_open hook.name hook.event matched e), w)
  post_failure false hook matched e trail w = (some (hook_error hook.name hook.event e), trail, w)

  after_post_run :
      Bool → ToolHook Any W → Trail → Result (HookOutcome Any) × W → Option String × Trail × W
  after_post_run fail_open hook trail (raised e, w) = post_failure fail_open hook true e trail w
  after_post_run fail_open hook trail (ok outcome, w) = (
    none,
    add_trace (add_message trail outcome.extra_message) (ran hook.name hook.event outcome),
    w,
  )

  after_post_match :
      Bool → ToolHook Any W → HookContext Any → Trail → Result Bool × W → Option String × Trail × W
  after_post_match fail_open hook ctx trail (raised e, w) =
      post_failure fail_open hook false e trail w
  after_post_match fail_open hook ctx trail (ok false, w) =
      (none, add_trace trail (unmatched hook.name hook.event), w)
  after_post_match fail_open hook ctx trail (ok true, w) =
      after_post_run fail_open hook trail (hook.run ctx w)

  -- `_run_post_hooks` at one hook: none to go on, or the text of the exception.
  unfoldable pub post_step :
      Bool → ToolHook Any W → HookContext Any → Trail → W → Option String × Trail × W
  unfolding post_failure after_post_run after_post_match
  post_step fail_open hook ctx trail w =
      if same_event hook.event ctx.event
      then after_post_match fail_open hook ctx trail (hook.matches ctx w)
      else (none, trail, w)

  unfoldable pub run_post_hooks :
      Bool → List (ToolHook Any W) → HookContext Any → Trail → W → Option String × Trail × W
  run_post_hooks fail_open [] ctx trail w = (none, trail, w)
  run_post_hooks fail_open (hook ∷ hooks) ctx trail w =
      let (failure, trail', w') = post_step fail_open hook ctx trail w in
      elim failure [
        | none ↦ run_post_hooks fail_open hooks ctx trail' w'
        | some e ↦ (some e, trail', w')
      ]

abbrev pub finish :
    {Any : Type 0}
    → ToolExecStatus
    → Any
    → Dict Any
    → Trail
    → List HookTraceItem
    → ToolExecutionResult Any
finish status output arguments post pre = record {
  status = status;
  output = output;
  final_arguments = arguments;
  extra_messages = post.extra_messages;
  pre_hook_trace = pre;
  post_hook_trace = post.traces;
}

abbrev pub empty_trail : List String → Trail
empty_trail messages = record { extra_messages = messages; traces = [] }

-- f"工具执行出错: {e}"
abbrev pub error_text : String → String
error_text e = str_append "工具执行出错: " e

abbrev pub Invoker : Type 0 → Type 0 → Type 0
Invoker Any W = String → Dict Any → Call W Any

-- `text` makes a value of a text; `invoker` is the tool registry's `execute`.
module _ {Any W : Type 0} (text : String → Any) where
  -- The rest of `execute` after the tool has raised `e`; `pre` is what the pre hooks left.
  after_error :
      List (ToolHook Any W)
      → ToolExecutionRequest Any
      → Dict Any
      → Trail
      → String
      → W
      → ToolExecutionResult Any × W
  after_error hooks request arguments pre e w =
      let (failure, post, w') =
        run_post_hooks false hooks
          (record {
            event = post_tool_error;
            request = request;
            current_arguments = arguments;
            result = none;
            error = e;
          })
          (empty_trail pre.extra_messages) w in
      elim failure [
        | none ↦ (finish error (text (error_text e)) arguments post pre.traces, w')
        | some hook_e ↦ (finish error (text (error_text hook_e)) arguments post pre.traces, w')
      ]

  -- The rest of `execute` after the tool has returned `output`.
  after_success :
      List (ToolHook Any W)
      → ToolExecutionRequest Any
      → Dict Any
      → Trail
      → Any
      → W
      → ToolExecutionResult Any × W
  after_success hooks request arguments pre output w =
      let (failure, post, w') =
        run_post_hooks true hooks
          (record {
            event = post_tool_use;
            request = request;
            current_arguments = arguments;
            result = some output;
            error = "";
          })
          (empty_trail pre.extra_messages) w in
      elim failure [
        | none ↦ (finish success output arguments post pre.traces, w')
        | some hook_e ↦ (finish error (text (error_text hook_e)) arguments post pre.traces, w')
      ]

  after_invoke :
      List (ToolHook Any W)
      → ToolExecutionRequest Any
      → Dict Any
      → Trail
      → Result Any × W
      → ToolExecutionResult Any × W
  after_invoke hooks request arguments pre (raised e, w) =
      after_error hooks request arguments pre e w
  after_invoke hooks request arguments pre (ok output, w) =
      after_success hooks request arguments pre output w

  -- `execute` once the pre hooks have ended. If they raise, the arguments are still the request's.
  after_pre :
      List (ToolHook Any W)
      → ToolExecutionRequest Any
      → Invoker Any W
      → PreResult Any W
      → ToolExecutionResult Any × W
  after_pre hooks request invoker (threw e pre w) = (
    finish error (text (error_text e)) request.arguments (empty_trail pre.extra_messages)
        pre.traces,
    w,
  )
  after_pre hooks request invoker (returned reason arguments pre w) =
      if truthy reason
      then (finish denied (text reason) arguments (empty_trail pre.extra_messages) pre.traces, w)
      else after_invoke hooks request arguments pre (invoker request.tool_name arguments w)

  unfoldable pub execute :
      List (ToolHook Any W)
      → ToolExecutionRequest Any
      → Invoker Any W
      → W
      → ToolExecutionResult Any × W
  unfolding after_pre after_invoke after_error after_success
  execute hooks request invoker w =
      after_pre hooks request invoker
        (run_pre_hooks hooks request request.arguments (empty_trail []) w)
