-- ===== src/Agent/Turn/Retry.antt =====
-- agent/core/reasoner.py: `run_turn`, the attempts of a turn in their order.
pub mod Outcome
use Prim.Native.String.{◌++◌ as str_append}
use minicode_agent_runtime.Prelude.{
  ℕ, String, Bool, true, false, ◌+◌, if◌then◌else◌, List, [], ◌∷◌, ◌++◌, Option, none, some, length,
}
use minicode_agent_runtime.Prelude.Dict.{Dict}
use minicode_agent_runtime.Session.{Session}
use minicode_agent_runtime.Session.History.{Values, get_history, last_messages}
use minicode_agent_runtime.Tools.Discovery.{ToolDiscoveryState, get_preloaded}
use minicode_agent_runtime.Tools.Discovery
use minicode_agent_runtime.Tools.{sort}
use minicode_agent_runtime.Tools.Registry.{get_deferred_names, get_always_on_names, Deferred}
use minicode_agent_runtime.Agent.Reasoner.{
  content_safety, context_length, other, Attempt, answered, failed, Message, Group, Services,
  join_by,
}
use minicode_agent_runtime.Agent.Reasoner.Finish.{ReasonerResult}
use minicode_agent_runtime.Agent.Reasoner.Loop.{run}
use minicode_agent_runtime.Agent.Turn.{AttemptPlan, build_attempt_plans, slice_history}

-- What `run_turn` reads of the inbound message; its time and its media are values of the caller.
pub record TurnMessage (Any : Type 0) : Type 0 where
  pub content : String
  pub media : List Any
  pub channel : String
  pub chat_id : String
  pub timestamp : Any

-- `ContextRequest`, as far as `run_turn` fills it
pub record ContextRequest (Any : Type 0) : Type 0 where
  pub history : List (Message Any)
  pub message : TurnMessage Any
  pub skill_names : List String
  pub retrieved_memory_block : String
  pub disabled_sections : List String
  pub turn_injection_prompt : String

-- `retry_trace`: the attempts that were begun, their sections in the order of the plan; the
-- statistics are left to the samples.
pub record RetryTrace : Type 0 where
  pub attempts : List AttemptPlan
  pub selected_plan : Option String
  pub trimmed_sections : List String
  pub samples : List ℕ

-- `TurnRunResult`
pub record TurnRunResult (Any : Type 0) : Type 0 where
  pub reply : String
  pub tools_used : List String
  pub tool_chain : List (Group Any)
  pub thinking : Option String
  pub streamed : Bool
  pub context_retry : RetryTrace

pub record TurnState (Any W : Type 0) : Type 0 where
  pub session : Session Any
  pub discovery : ToolDiscoveryState
  pub world : W

-- The settings of the reasoner; the context builder's `render` and the session manager's `save`,
-- which gives the session that it has completed, and may raise.
pub record TurnServices (Any W : Type 0) : Type 0 where
  pub values : Values Any
  pub memory_window : ℕ
  pub max_iterations : ℕ
  pub tool_search_enabled : Bool
  pub render : ContextRequest Any → W → List Any
  pub save : Session Any → W → Option String × Session Any × W

-- The servers with their tools, and how many these are
abbrev mcp_lines : Dict (List String) → List String
mcp_lines [] = []
mcp_lines ((server, names) ∷ groups) =
    str_append "MCP (" (str_append server (str_append "): " (join_by ", " names)))
    ∷ mcp_lines groups

abbrev count_names : Dict (List String) → ℕ
count_names [] = 0
count_names ((server, names) ∷ groups) = length names + count_names groups

abbrev builtin_lines : List String → List String
builtin_lines [] = []
builtin_lines (n ∷ ns) = str_append "内置: " (join_by ", " (n ∷ ns)) ∷ []

abbrev deferred_footer : String → String
deferred_footer total = str_append "\n共 " (
    str_append total
      " 个。加载方式：\n- 已知工具名 → tool_search(query=\"select:工具名\")，支持逗号分隔多个\n- 描述功能   → tool_search(query=\"关键词\") 搜索匹配")

abbrev deferred_text : (ℕ → String) → Deferred → String
deferred_text decimal d =
    str_append
      (join_by "\n" (
        ("【未加载工具目录（知道名字但 schema 未暴露）】" ∷ builtin_lines d.builtin)
        ++ mcp_lines d.mcp
        ++ deferred_footer (decimal (length d.builtin + count_names d.mcp)) ∷ []))
      "\n\n"

abbrev is_empty_deferred : List String → Dict (List String) → Bool
is_empty_deferred [] [] = true
is_empty_deferred (n ∷ ns) groups = false
is_empty_deferred [] (g ∷ groups) = false

-- `_build_deferred_tools_hint`
unfoldable pub deferred_tools_hint : (ℕ → String) → Deferred → String
deferred_tools_hint decimal d =
    if is_empty_deferred d.builtin d.mcp then "" else deferred_text decimal d

-- `base_history or session.get_history(...)`
abbrev or_history : {Any : Type 0} → List (Message Any) → List (Message Any) → List (Message Any)
or_history [] history = history
or_history (m ∷ ms) history = m ∷ ms

module _ {Any W : Type 0} (s : Services Any W) (t : TurnServices Any W) (msg : TurnMessage Any)
    (skill_names : List String) (retrieved_memory_block : String) where
  preloaded_of : TurnState Any W → Option (List String)
  preloaded_of st =
      if t.tool_search_enabled then some (get_preloaded st.discovery st.session.key) else none

  -- `build_turn_injection_prompt`
  turn_injection_prompt : Option (List String) → W → String
  turn_injection_prompt none w = ""
  turn_injection_prompt (some visible) w =
      deferred_tools_hint s.decimal (get_deferred_names s.before (s.registry w) visible)

  -- The messages of an attempt
  unfoldable pub initial_messages :
      List (Message Any) → Option (List String) → AttemptPlan → W → List Any
  unfolding turn_injection_prompt
  initial_messages history preloaded plan w =
      t.render
        (record {
          history = slice_history history plan.history_window;
          message = msg;
          skill_names = skill_names;
          retrieved_memory_block = retrieved_memory_block;
          disabled_sections = plan.disabled_sections;
          turn_injection_prompt = turn_injection_prompt preloaded w;
        })
        w

  -- A reply without a run
  plain_result : String → List AttemptPlan → TurnRunResult Any
  plain_result reply trace = record {
    reply = reply;
    tools_used = [];
    tool_chain = [];
    thinking = none;
    streamed = false;
    context_retry = record {
      attempts = trace;
      selected_plan = none;
      trimmed_sections = [];
      samples = [];
    };
  }

  result_of : List AttemptPlan → AttemptPlan → ReasonerResult Any → TurnRunResult Any
  result_of trace plan r = record {
    reply = r.reply;
    tools_used = r.tools_used;
    tool_chain = r.tool_chain;
    thinking = r.thinking;
    streamed = r.streamed;
    context_retry = record {
      attempts = trace;
      selected_plan = some plan.name;
      trimmed_sections = sort s.before plan.disabled_sections;
      samples = r.samples;
    };
  }

  -- The session keeps the last messages, as many as the window, and is consolidated anew.
  unfoldable pub trim_session : ℕ → Session Any → Session Any
  trim_session window session = record session {
    messages = last_messages window session.messages;
    last_consolidated = 0;
  }

  -- `self._discovery.update` if tools were used
  note_tools : List String → TurnState Any W → TurnState Any W
  note_tools [] st = st
  note_tools (name ∷ names) st =
      if t.tool_search_enabled
      then record st {
        discovery =
            Discovery.update st.session.key (name ∷ names)
              (get_always_on_names (s.registry st.world)) st.discovery;
      }
      else st

  after_save :
      TurnRunResult Any
      → TurnState Any W
      → Option String × Session Any × W
      → Attempt (TurnRunResult Any) × TurnState Any W
  after_save r st (some e, session, w) =
      (failed (other e), record st { session = session; world = w })
  after_save r st (none, session, w) =
      (answered r, note_tools r.tools_used (record st { session = session; world = w }))

  -- What follows a run that gave a result: a retry trims the session and saves it.
  finish_turn :
      Bool
      → AttemptPlan
      → TurnRunResult Any
      → TurnState Any W
      → Attempt (TurnRunResult Any) × TurnState Any W
  finish_turn true plan r st = (answered r, note_tools r.tools_used st)
  finish_turn false plan r st =
      after_save r st (t.save (trim_session plan.history_window st.session) st.world)

  -- A provider's refusal: the next attempt, or the fixed reply after the last one
  refused :
      String
      → List AttemptPlan
      → List AttemptPlan
      → (TurnState Any W → Attempt (TurnRunResult Any) × TurnState Any W)
      → TurnState Any W
      → Attempt (TurnRunResult Any) × TurnState Any W
  refused text [] trace next st = (answered (plain_result text trace), st)
  refused text (p ∷ ps) trace next st = next st

  after_run :
      Bool
      → AttemptPlan
      → List AttemptPlan
      → List AttemptPlan
      → (TurnState Any W → Attempt (TurnRunResult Any) × TurnState Any W)
      → TurnState Any W
      → Attempt (ReasonerResult Any)
      → Attempt (TurnRunResult Any) × TurnState Any W
  after_run first plan rest trace next st (answered r) =
      finish_turn first plan (result_of trace plan r) st
  after_run first plan rest trace next st (failed content_safety) =
      refused "你的消息触发了安全审查，无法处理。" rest trace next st
  after_run first plan rest trace next st (failed context_length) =
      refused "上下文过长无法处理，请尝试新建对话。" rest trace next st
  after_run first plan rest trace next st (failed (other e)) = (failed (other e), st)

  -- The loop over the attempts, with those that were begun
  unfoldable pub try_plans :
      List (Message Any)
      → Option (List String)
      → Bool
      → List AttemptPlan
      → List AttemptPlan
      → TurnState Any W
      → Attempt (TurnRunResult Any) × TurnState Any W
  unfolding plain_result result_of note_tools after_save finish_turn refused after_run
  try_plans history preloaded first trace [] st = (answered (plain_result "（安全重试异常）" trace), st)
  try_plans history preloaded first trace (plan ∷ rest) st =
      let (out, ls) =
        run s t.max_iterations t.tool_search_enabled
          (initial_messages history preloaded plan st.world) preloaded st.world in
      after_run first plan rest (trace ++ plan ∷ [])
        (try_plans history preloaded false (trace ++ plan ∷ []) rest)
        (record st { world = ls.world }) out

  -- `run_turn`
  unfoldable pub run_turn :
      List (Message Any) → TurnState Any W → Attempt (TurnRunResult Any) × TurnState Any W
  unfolding preloaded_of
  run_turn base_history st =
      let history = or_history base_history (get_history t.values t.memory_window st.session) in
      try_plans history (preloaded_of st) true [] (build_attempt_plans (length history)) st
