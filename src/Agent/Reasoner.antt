-- ===== src/Agent/Reasoner.antt =====
-- agent/core/reasoner.py and agent/tool_runtime.py: the data of `DefaultReasoner`, the messages that
-- it writes, and one tool call.
use Prim.Native.String.{◌++◌ as str_append}
pub mod Calls
pub mod Finish
pub mod Loop
pub mod Protocol
pub mod Guarded
pub mod Visible
use minicode_agent_runtime.Prelude.{
  ℕ, String, Bool, true, false, ◌+◌, ◌/◌, max, if◌then◌else◌, List, [], ◌∷◌, ◌++◌, Option, none,
  some, str_eq, truthy, or_text, contains, keep, not, ◌&&◌, length,
}
use minicode_agent_runtime.Prelude.Dict.{Dict}
use minicode_agent_runtime.ToolHooks.{
  Result, ok, ToolHook, ToolExecutionRequest, ToolExecutionResult, ToolExecStatus, success, denied,
  error, HookTraceItem, passive,
}
use minicode_agent_runtime.ToolHooks.Executor.{Invoker}
use minicode_agent_runtime.ToolHooks.Executor
use minicode_agent_runtime.Tools.{sort}
use minicode_agent_runtime.Tools.Registry.{ToolRegistry, get_tool_risk, get_always_on_names}
use minicode_agent_runtime.Tools.Registry

-- What a provider or a sink raises: `run_turn` tells the first two apart.
pub data Failure : Type 0 where
  content_safety context_length : Failure
  other : String → Failure

pub data Attempt (A : Type 0) : Type 0 where
  answered : A → Attempt A
  failed : Failure → Attempt A

pub record ToolCall (Any : Type 0) : Type 0 where
  pub id : String
  pub name : String
  pub arguments : Dict Any

pub record ChatResponse (Any : Type 0) : Type 0 where
  pub content : Option String
  pub tool_calls : List (ToolCall Any)
  pub thinking : Option String

-- base.py: `ToolResult`
pub record ToolResult (Any : Type 0) : Type 0 where
  pub text : String
  pub content_blocks : List Any

-- A message by the function that builds it; `given` is one that `run` was handed.
pub data Message (Any : Type 0) : Type 0 where
  given : Any → Message Any
  assistant_calls : Option String → List (ToolCall Any) → Message Any
  tool_result : (call_id content : String) → Message Any
  user_blocks : String → List Any → Message Any
  runtime_hint : String → Message Any
  assistant : Option String → Message Any

-- What the executor reports of a call, for the tool chain.
pub record ExecRecord (Any : Type 0) : Type 0 where
  pub status : ToolExecStatus
  pub final_arguments : Dict Any
  pub pre_hook_trace : List HookTraceItem
  pub post_hook_trace : List HookTraceItem

-- An entry of the tool chain; a call of a tool that was not visible has no record.
pub record CallRecord (Any : Type 0) : Type 0 where
  pub call_id : String
  pub name : String
  pub arguments : Dict Any
  pub result : String
  pub exec : Option (ExecRecord Any)

pub record Group (Any : Type 0) : Type 0 where
  pub text : Option String
  pub calls : List (CallRecord Any)

-- What `on_progress` is told.
pub record Progress (Any : Type 0) : Type 0 where
  pub partial_reply : String
  pub tools_used : List String
  pub tool_chain_partial : List (Group Any)
  pub partial_thinking : Option String

-- The variables of `run`. The names that are visible are none if all are.
pub record LoopState (Any W : Type 0) : Type 0 where
  pub messages : List (Message Any)
  pub tools_used : List String
  pub tool_chain : List (Group Any)
  pub last_signature : String
  pub repeat_count : ℕ
  pub visible : Option (List String)
  pub streamed : Bool
  pub samples : List ℕ
  pub world : W

-- What the reasoner is given: the model's provider, with its settings, on messages and schemas; the
-- registry and its tools, with the hooks; `tool_search`'s `set_excluded_names`; the sink of the
-- progress; the test of a result's class; the length of `json.dumps` of messages, and the dump of
-- arguments; the names in a result of `tool_search`; the order of texts; the decimal
-- text of a number. `sink` says whether a sink
-- of content deltas is given.
pub record Services (Any W : Type 0) : Type 0 where
  pub chat : List (Message Any) → List Any → W → Attempt (ChatResponse Any) × W
  pub registry : W → ToolRegistry Any W
  pub hooks : List (ToolHook Any W)
  pub exclude : List String → W → W
  pub notify : Progress Any → W → Option Failure × W
  pub normalize : Any → ToolResult Any
  pub of_text : String → Any
  pub payload_length : List (Message Any) → ℕ
  pub dump : Dict Any → String
  pub unlocked : String → List String
  pub before : String → String → Bool
  pub sink : Bool
  pub decimal : ℕ → String

-- `sep.join(parts)`
unfoldable pub join_by : String → List String → String
join_by sep [] = ""
join_by sep (t ∷ []) = t
join_by sep (t ∷ u ∷ ts) = str_append t (str_append sep (join_by sep (u ∷ ts)))

-- `a - b` on sets
abbrev pub minus : List String → List String → List String
minus xs ys = keep (λ x. not (contains ys x)) xs

abbrev pub text_or : Option String → String → String
text_or none d = d
text_or (some s) d = or_text s d

module _ {Any : Type 0} where
  abbrev preview_blocks : (ℕ → String) → List Any → String
  preview_blocks decimal [] = ""
  preview_blocks decimal (b ∷ bs) =
      str_append "[多模态结果 " (str_append (decimal (length (b ∷ bs))) " blocks]")

  -- `ToolResult.preview`
  unfoldable pub preview : (ℕ → String) → ToolResult Any → String
  preview decimal r = if truthy r.text then r.text else preview_blocks decimal r.content_blocks
