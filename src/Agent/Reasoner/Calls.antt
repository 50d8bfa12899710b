-- ===== src/Agent/Reasoner/Calls.antt =====
-- agent/core/reasoner.py and agent/tool_runtime.py: what `run` does with one tool call.
use Prim.Native.String.{◌++◌ as str_append}
use minicode_agent_runtime.Prelude.{
  String, Bool, true, false, if◌then◌else◌, List, [], ◌∷◌, ◌++◌, Option, none, some, str_eq,
  or_text, contains, ◌&&◌,
}
use minicode_agent_runtime.ToolHooks.{
  ok, ToolExecutionRequest, ToolExecutionResult, ToolExecStatus, success, denied, error, passive,
}
use minicode_agent_runtime.ToolHooks.Executor.{Invoker}
use minicode_agent_runtime.ToolHooks.Executor
use minicode_agent_runtime.Tools.Registry.{get_tool_risk}
use minicode_agent_runtime.Tools.Registry
use minicode_agent_runtime.Agent.Reasoner.{
  ToolCall, ToolResult, Message, tool_result, user_blocks, CallRecord, LoopState, Services, minus,
  preview,
}

abbrev pub is_success : ToolExecStatus → Bool
is_success success = true
is_success denied = false
is_success error = false

-- `visible_names is None or name in visible_names`
abbrev pub is_visible : Option (List String) → String → Bool
is_visible none name = true
is_visible (some names) name = contains names name

-- The text for a tool that is not visible
unfoldable pub not_loaded : String → String
not_loaded name = str_append "工具 '" (
    str_append name (
      str_append "' 当前未加载（schema 不可见）。请先调用 tool_search(query=\"select:"
        (str_append name "\") 加载，然后再调用该工具。不要放弃当前任务。")))

-- `visible_names.update(newly - visible_names)` after a success of `tool_search`
unfoldable pub unlock : Bool → List String → Option (List String) → Option (List String)
unlock search_done newly none = none
unlock search_done newly (some names) =
    some (if search_done then names ++ minus newly names else names)

module _ {Any : Type 0} where
  abbrev pub block_message : String → List Any → List (Message Any)
  block_message name [] = []
  block_message name (b ∷ bs) = user_blocks name (b ∷ bs) ∷ []

  -- What `append_tool_result` writes; a user message with the blocks follows if there are any.
  unfoldable pub result_messages : String → String → ToolResult Any → List (Message Any)
  result_messages call_id name r =
      tool_result call_id (or_text r.text "工具执行完成。") ∷ block_message name r.content_blocks

  -- The entry of the chain for a call that was executed
  unfoldable pub executed_record : ToolCall Any → ToolExecutionResult Any → String → CallRecord Any
  executed_record call r result = record {
    call_id = call.id;
    name = call.name;
    arguments = call.arguments;
    result = result;
    exec = some (record {
      status = r.status;
      final_arguments = r.final_arguments;
      pre_hook_trace = r.pre_hook_trace;
      post_hook_trace = r.post_hook_trace;
    });
  }

module _ {Any W : Type 0} (s : Services Any W) where
  -- 6.1: the call of a tool that is not visible
  unfoldable pub refuse_call : ToolCall Any → LoopState Any W → CallRecord Any × LoopState Any W
  refuse_call call st =
      let result = not_loaded call.name in
      (
        record {
          call_id = call.id;
          name = call.name;
          arguments = call.arguments;
          result = result;
          exec = none;
        },
        record st { messages = st.messages ++ tool_result call.id result ∷ [] },
      )

  unfoldable pub request_of : ToolCall Any → W → ToolExecutionRequest Any
  request_of call w = record {
    call_id = call.id;
    tool_name = call.name;
    arguments = call.arguments;
    source = passive;
    tool_risk = get_tool_risk (s.registry w) call.name;
    session_key = "";
    channel = "";
    chat_id = "";
    request_text = "";
  }

  -- `ToolRegistry.execute`, which does not raise
  unfoldable pub invoke : Invoker Any W
  invoke name arguments w =
      let (output, w') = Registry.execute s.of_text (s.registry w) name arguments w in
      (ok output, w')

  -- `set_excluded_names` before a call of `tool_search`, which a registry without the tool ignores
  unfoldable pub exclude_names : ToolCall Any → Option (List String) → W → W
  exclude_names call none w = w
  exclude_names call (some names) w =
      if str_eq call.name "tool_search" then s.exclude names w else w

  -- 6.2: the executor, with the registry's tools behind the hooks
  unfoldable pub execute_call : ToolCall Any → LoopState Any W → ToolExecutionResult Any × W
  unfolding request_of invoke exclude_names
  execute_call call st =
      let w = exclude_names call st.visible st.world in
      Executor.execute s.of_text s.hooks (request_of call w) invoke w

  -- 6.3: what is noted of a call that was executed
  unfoldable pub note_call :
      ToolCall Any
      → ToolExecutionResult Any
      → W
      → LoopState Any W
      → CallRecord Any × LoopState Any W
  note_call call r w st =
      let result = s.normalize r.output in
      let done = is_success r.status in
      (
        executed_record call r (preview s.decimal result),
        record st {
          messages = st.messages ++ result_messages call.id call.name result;
          tools_used = if done then st.tools_used ++ call.name ∷ [] else st.tools_used;
          visible =
              unlock (done && str_eq call.name "tool_search") (s.unlocked result.text) st.visible;
          world = w;
        },
      )

  unfoldable pub run_call : ToolCall Any → LoopState Any W → CallRecord Any × LoopState Any W
  run_call call st =
      let (r, w) = execute_call call st in
      if is_visible st.visible call.name then note_call call r w st else refuse_call call st

  -- 6: the calls of a response in their order, after the entries that there are
  unfoldable pub run_calls :
      List (ToolCall Any)
      → List (CallRecord Any)
      → LoopState Any W
      → List (CallRecord Any) × LoopState Any W
  run_calls [] records st = (records, st)
  run_calls (call ∷ calls) records st =
      let (entry, st') = run_call call st in run_calls calls (records ++ entry ∷ []) st'
