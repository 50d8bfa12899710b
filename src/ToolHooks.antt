-- ===== src/ToolHooks.antt =====
-- agent/tool_hooks/types.py and base.py: the data that tool hooks exchange.
--
-- Argument and result values are of a type `Any` (JSON values); what hooks and tools do outside
-- the request (files, metrics, the network) is a world `W` that their calls thread through.
pub mod Executor
pub mod RiskGuard
pub mod ShellRm
use minicode_agent_runtime.Prelude.{ℕ, String, Bool, true, false, ◌≡◌, Option, List, arith}
use minicode_agent_runtime.Prelude.Dict.{Dict}

pub data HookEvent : Type 0 where
  pre_tool_use post_tool_use post_tool_error : HookEvent

pub data ToolExecStatus : Type 0 where
  success denied error : ToolExecStatus

pub data HookDecision : Type 0 where
  pass deny : HookDecision

pub data ToolSource : Type 0 where
  passive proactive subagent : ToolSource

-- `a == b` on events
abbrev pub same_event : HookEvent → HookEvent → Bool
same_event pre_tool_use pre_tool_use = true
same_event post_tool_use post_tool_use = true
same_event post_tool_error post_tool_error = true
same_event _ _ = false

abbrev pub event_text : HookEvent → String
event_text pre_tool_use = "pre_tool_use"
event_text post_tool_use = "post_tool_use"
event_text post_tool_error = "post_tool_error"

pub record ToolExecutionRequest (Any : Type 0) : Type 0 where
  pub call_id : String
  pub tool_name : String
  pub arguments : Dict Any
  pub source : ToolSource
  pub tool_risk : String
  pub session_key : String
  pub channel : String
  pub chat_id : String
  pub request_text : String

-- `result` is set by `post_tool_use` alone.
pub record HookContext (Any : Type 0) : Type 0 where
  pub event : HookEvent
  pub request : ToolExecutionRequest Any
  pub current_arguments : Dict Any
  pub result : Option Any
  pub error : String

pub record HookOutcome (Any : Type 0) : Type 0 where
  pub decision : HookDecision
  pub updated_input : Option (Dict Any)
  pub extra_message : String
  pub reason : String

pub record HookTraceItem : Type 0 where
  pub hook_name : String
  pub event : HookEvent
  pub matched : Bool
  pub decision : HookDecision
  pub reason : String
  pub extra_message : String

pub record ToolExecutionResult (Any : Type 0) : Type 0 where
  pub status : ToolExecStatus
  pub output : Any
  pub final_arguments : Dict Any
  pub extra_messages : List String
  pub pre_hook_trace : List HookTraceItem
  pub post_hook_trace : List HookTraceItem

-- A call returns, or raises an exception of which the code keeps the text.
pub data Result (A : Type 0) : Type 0 where
  ok : A → Result A
  raised : String → Result A

-- A call that may raise and that acts on the world; what it did before it raised stays done.
abbrev pub Call : Type 0 → Type 0 → Type 0
Call W A = W → Result A × W

-- base.py: `ToolHook`, by its name, its event and its two methods.
pub record ToolHook (Any W : Type 0) : Type 0 where
  pub name : String
  pub event : HookEvent
  pub matches : HookContext Any → Call W Bool
  pub run : HookContext Any → Call W (HookOutcome Any)
