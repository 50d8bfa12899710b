-- ===== src/Agent/Reasoner/Finish.antt =====
-- agent/core/reasoner.py: the texts that `run` makes, its result, and the ways in which it ends.
use Prim.Native.String.{◌++◌ as str_append}
use minicode_agent_runtime.Prelude.{
  ℕ, String, Bool, false, ◌-◌, ◌/◌, max, if◌then◌else◌, List, [], ◌∷◌, ◌++◌, Option, none, some,
  strip, or_text, contains, length, drop,
}
use minicode_agent_runtime.Tools.{sort}
use minicode_agent_runtime.Agent.Reasoner.{
  Failure, Attempt, answered, failed, ToolCall, ChatResponse, Message, runtime_hint, assistant,
  CallRecord, Group, Progress, LoopState, Services, join_by, minus, text_or,
}

-- `_INCOMPLETE_SUMMARY_PROMPT`
abbrev pub incomplete_summary_prompt : String
incomplete_summary_prompt =
    "当前任务未在预算内完成，请直接输出给用户的中文收尾说明（不要提及系统/工具内部细节）。\n必须包含三点：\n1) 已完成到哪一步（基于当前上下文的事实）；\n2) 目前还缺什么信息或步骤；\n3) 下一步你会怎么继续。\n禁止输出“已达到最大迭代次数”这类模板句；不要输出 JSON。"

-- `_TOOL_LOOP_EXCLUDED`
abbrev pub tool_loop_excluded : List String
tool_loop_excluded = "task_output" ∷ "task_stop" ∷ []

-- `_build_result`: the reply with the metadata; the token sums are left to `samples`.
pub record ReasonerResult (Any : Type 0) : Type 0 where
  pub reply : String
  pub invocations : List (ToolCall Any)
  pub thinking : Option String
  pub streamed : Bool
  pub tools_used : List String
  pub tool_chain : List (Group Any)
  pub visible_names : Option (List String)
  pub samples : List ℕ

-- `", ".join(names) if names else d`
abbrev pub listed : List String → String → String
listed [] d = d
listed (n ∷ ns) d = join_by ", " (n ∷ ns)

-- The last elements of a list
abbrev pub last_of : ℕ → List String → List String
last_of n xs = drop (length xs - n) xs

module _ {Any : Type 0} where
  unfoldable pub invocations_of : List (CallRecord Any) → List (ToolCall Any)
  invocations_of [] = []
  invocations_of (c ∷ cs) =
      record { id = c.call_id; name = c.name; arguments = c.arguments } ∷ invocations_of cs

  unfoldable pub flatten : List (Group Any) → List (ToolCall Any)
  flatten [] = []
  flatten (g ∷ gs) = invocations_of g.calls ++ flatten gs

  abbrev pub content_text : ChatResponse Any → String
  content_text r = text_or r.content ""

  -- `_estimate_messages_tokens`, on the length of the dump
  unfoldable pub estimate_messages_tokens : (List (Message Any) → ℕ) → List (Message Any) → ℕ
  estimate_messages_tokens payload_length [] = 0
  estimate_messages_tokens payload_length (m ∷ ms) = max 1 (payload_length (m ∷ ms) / 3)

module _ {Any W : Type 0} (s : Services Any W) where
  unfoldable pub build_result : String → Option String → Bool → LoopState Any W → ReasonerResult Any
  build_result reply thinking streamed st = record {
    reply = reply;
    invocations = flatten st.tool_chain;
    thinking = thinking;
    streamed = streamed;
    tools_used = st.tools_used;
    tool_chain = st.tool_chain;
    visible_names = st.visible;
    samples = st.samples;
  }

  -- The tools of the calls that count, with their arguments
  unfoldable pub signature_parts : List (ToolCall Any) → List String
  signature_parts [] = []
  signature_parts (c ∷ cs) =
      let rest = signature_parts cs in
      if contains tool_loop_excluded c.name
      then rest
      else str_append c.name (str_append ":" (s.dump c.arguments)) ∷ rest

  -- `tool_call_signature`
  unfoldable pub tool_call_signature : List (ToolCall Any) → String
  unfolding signature_parts
  tool_call_signature calls = join_by "|" (signature_parts calls)

  -- `_build_loop_state_hint`
  unfoldable pub loop_state_hint : Option (List String) → List String → String
  loop_state_hint none always_on = "【当前工具状态】tool_search 未开启，本轮按现有工具继续。"
  loop_state_hint (some visible) always_on =
      let extra = sort s.before (minus (minus visible always_on) ("tool_search" ∷ [])) in
      str_append "【当前工具状态】已解锁: " (
        str_append (listed extra "仅 always-on")
          "\n未知工具: tool_search(query=\"关键词\") 搜索\n已知工具名但未加载: tool_search(query=\"select:工具名\")")

  unfoldable pub summary_prompt : String → ℕ → List String → String
  summary_prompt reason iteration tools_used = str_append "[收尾原因] " (
      str_append reason (
        str_append "\n[已执行轮次] " (
          str_append (s.decimal iteration) (
            str_append "\n[已调用工具] " (
              str_append (listed (last_of 8 tools_used) "无")
                (str_append "\n\n" incomplete_summary_prompt))))))

  unfoldable pub fallback_summary : ℕ → List String → String
  fallback_summary iteration tools_used = str_append "这次任务还没完全收束。已尝试 " (
      str_append (s.decimal iteration) (
        str_append " 轮，调用工具 "
          (str_append (s.decimal (length tools_used)) " 次。我先停在当前进度，后续会继续补齐缺失信息并给你最终结论。")))

  unfoldable pub summary_text : String → Attempt (ChatResponse Any) → String
  summary_text fixed (failed e) = fixed
  summary_text fixed (answered r) = or_text (strip (content_text r)) fixed

  -- `_summarize_incomplete_progress`, and the result with its text
  unfoldable pub stop_early :
      String → ℕ → LoopState Any W → Attempt (ReasonerResult Any) × LoopState Any W
  unfolding summary_prompt fallback_summary summary_text
  stop_early reason iteration st =
      let prompt = runtime_hint (summary_prompt reason iteration st.tools_used) in
      let (reply, w) = s.chat (st.messages ++ prompt ∷ []) [] st.world in
      let text = summary_text (fallback_summary iteration st.tools_used) reply in
      (answered (build_result text none false st), record st { world = w })

  unfoldable pub progress_of : ChatResponse Any → Option String → LoopState Any W → Progress Any
  progress_of r thinking st = record {
    partial_reply = content_text r;
    tools_used = st.tools_used;
    tool_chain_partial = st.tool_chain;
    partial_thinking = thinking;
  }

  -- 8: the last reply
  unfoldable pub after_notice :
      ChatResponse Any
      → LoopState Any W
      → Option Failure × W
      → Attempt (ReasonerResult Any) × LoopState Any W
  after_notice r st (some e, w) = (failed e, record st { world = w })
  after_notice r st (none, w) = (
    answered (build_result (text_or r.content "（无响应）") r.thinking st.streamed st),
    record st { world = w },
  )

  unfoldable pub final_reply :
      ChatResponse Any → LoopState Any W → Attempt (ReasonerResult Any) × LoopState Any W
  unfolding after_notice progress_of
  final_reply r st =
      let st' = record st { messages = st.messages ++ assistant r.content ∷ [] } in
      after_notice r st' (s.notify (progress_of r r.thinking st') st'.world)
