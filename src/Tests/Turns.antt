-- ===== src/Tests/Turns.antt =====
-- Turns of the agent: samples and examples for agent/core/reasoner.py.
use minicode_agent_runtime.Prelude.{
  ℕ, suc, String, true, false, ◌≡◌, refl, none, some, List, [], ◌∷◌, contains, ◌==◌, if◌then◌else◌,
  strip, or_text, All, map, ◌++◌,
}
use minicode_agent_runtime.ToolHooks.{ok}
use minicode_agent_runtime.ToolHooks.RiskGuard.{risk_guard}
use minicode_agent_runtime.Tools.{ToolMeta}
use minicode_agent_runtime.Prelude.Dict.{get, put}
use minicode_agent_runtime.Agent.Turn.{slice_history}
use minicode_agent_runtime.Session.History.{expand_message}
use minicode_agent_runtime.Tools.Registry.{
  Tool, ToolRegistry, tool_registry, register, get_tool_risk,
}
use minicode_agent_runtime.Session.{Session, SessionMessage}
use minicode_agent_runtime.Session.History.{Values, get_history}
use minicode_agent_runtime.Session.History.Answered.{get_history-AllAnswered}
use minicode_agent_runtime.Agent.Reasoner.{
  other, answered, failed, ToolCall, ChatResponse, Message, CallRecord, Services, given,
}
use minicode_agent_runtime.Agent.Reasoner.Protocol.{AllAnswered, waiting, is_added}
use minicode_agent_runtime.Agent.Reasoner.Visible.{AllVisible, run-AllVisible}
use minicode_agent_runtime.Agent.Reasoner.Guarded.{Unused, run-risk_guard}
use minicode_agent_runtime.Agent.Reasoner.Loop.{run, start_state}
use minicode_agent_runtime.Agent.Reasoner.Loop.Asked.{with_chat, run-with_chat, Provider}
use minicode_agent_runtime.Agent.Reasoner.Loop.Invariants.{Told}
use minicode_agent_runtime.Agent.Reasoner.Loop.Replies.{Ends, run-Ends}
use minicode_agent_runtime.Agent.Turn.{build_attempt_plans}
use minicode_agent_runtime.Agent.Turn.Plans.{StartsFull, Descends, build_attempt_plans-Descends}
use minicode_agent_runtime.Agent.Turn.Retry.{TurnMessage, TurnServices, TurnState, run_turn}
use minicode_agent_runtime.Agent.Turn.Retry.Outcome.{Settles, run_turn-Settles}

-- Values are texts, and the world counts what was done.
abbrev reader : Tool String ℕ
reader = record {
  name = "read";
  description = "reads";
  schema = "{}";
  call = λ arguments w. (ok "text", suc w);
}

abbrev safe : ToolMeta
safe = record { risk = "read-only"; always_on = true; search_hint = none }

abbrev unsafe : ToolMeta
unsafe = record { risk = "destructive"; always_on = true; search_hint = none }

abbrev tools : ToolRegistry String ℕ
tools =
    register (record reader { name = "deploy" }) unsafe "builtin" ""
      (register reader safe "builtin" "" tool_registry)

abbrev call_of : String → ToolCall String
call_of name = record { id = "c1"; name = name; arguments = [] }

abbrev calling : ChatResponse String
calling = record {
  content = none;
  tool_calls = call_of "read" ∷ call_of "deploy" ∷ [];
  thinking = none;
}

abbrev replying : ChatResponse String
replying = record { content = some "done"; tool_calls = []; thinking = none }

-- It calls the tools first, and replies then.
abbrev chat : Provider String ℕ
chat ms schemas w = (answered (if w == 0 then calling else replying), suc w)

-- The same, but it refuses messages with a call that has no result behind the first message.
abbrev tail : List (Message String) → List (Message String)
tail [] = []
tail (m ∷ ms) = ms

abbrev strict_chat : Provider String ℕ
strict_chat ms schemas w = elim (waiting [] (tail ms)) [
  | none ↦ (failed (other "protocol"), w)
  | some is ↦ elim is [ [] ↦ chat ms schemas w | i ∷ js ↦ (failed (other "protocol"), w) ]
]

abbrev services : Services String ℕ
services = record {
  chat = chat;
  registry = λ w. tools;
  hooks = [];
  exclude = λ names w. w;
  notify = λ p w. (none, w);
  normalize = λ t. record { text = t; content_blocks = [] };
  of_text = λ t. t;
  payload_length = λ ms. 30;
  dump = λ arguments. "{}";
  unlocked = λ t. [];
  before = λ a b. true;
  sink = false;
  decimal = λ n. "n";
}

strict_chat-agrees :
    (rest : List (Message String)) (schemas : List String) (w : ℕ)
    → All (λ m. is_added m ≡ true) rest
    → waiting [] rest ≡ some []
    → strict_chat (map given ("hi" ∷ []) ++ rest) schemas w
      ≡ chat (map given ("hi" ∷ []) ++ rest) schemas w
strict_chat-agrees rest schemas w added h = rw (h, strict_chat) refl

run-with_chat_example :
    run (with_chat services strict_chat) 5 true ("hi" ∷ []) none 0
    ≡ run services 5 true ("hi" ∷ []) none 0
run-with_chat_example =
    run-with_chat services strict_chat ("hi" ∷ []) strict_chat-agrees 5 true none 0

run-AllVisible_example :
    Told
      (AllVisible services (start_state services true ("hi" ∷ []) none 0).visible)
      (run services 5 true ("hi" ∷ []) none 0).0
run-AllVisible_example = run-AllVisible services 5 true ("hi" ∷ []) none 0

run-Ends_example : Ends services 5 (run services 5 true ("hi" ∷ []) none 0).0
run-Ends_example = run-Ends services 5 true ("hi" ∷ []) none 0

abbrev observe : String → ℕ → ℕ
observe risk w = w

deploy_risk :
    (w : ℕ)
    → contains ("read-only" ∷ []) (
        or_text
          (strip (or_text (get_tool_risk (services.registry w) "deploy") "read-only"))
          "read-only")
      ≡ false
unfolding get_tool_risk register strip get put
deploy_risk w = refl

run-risk_guard_example :
    let (r, st) =
      run
        (record services { hooks = risk_guard observe ("read-only" ∷ []) "denied" ∷ [] })
        5
        true
        ("hi" ∷ [])
        none
        0 in
    Told (Unused "deploy") r × (contains st.tools_used "deploy" ≡ false)
run-risk_guard_example =
    run-risk_guard services observe ("read-only" ∷ []) "denied" [] [] "deploy" refl deploy_risk 5
      true ("hi" ∷ []) none 0

build_attempt_plans-Descends_example :
    StartsFull 9 (build_attempt_plans 9) × Descends (build_attempt_plans 9)
build_attempt_plans-Descends_example = build_attempt_plans-Descends 9

abbrev values : Values String
values = record {
  is_true = λ a. true;
  text = λ a. a;
  items = λ a. none;
  entries = λ a. none;
  paths = λ a. [];
  user_text = λ t. t;
  user_media = λ t paths. t;
}

abbrev record_of : String → CallRecord String
record_of id = record { call_id = id; name = "read"; arguments = []; result = "text"; exec = none }

abbrev said : SessionMessage String
said = record {
  id = none;
  seq = none;
  role = "user";
  content = "hi";
  timestamp = none;
  tool_chain = none;
  extra = [];
}

abbrev done_turn : SessionMessage String
done_turn = record said {
  role = "assistant";
  content = "done";
  tool_chain = some (record { text = none; calls = record_of "a" ∷ record_of "b" ∷ [] } ∷ []);
}

abbrev talk : Session String
talk = record {
  key = "cli:1";
  messages = said ∷ done_turn ∷ [];
  created_at = "t0";
  updated_at = "t0";
  metadata = [];
  last_consolidated = 0;
}

get_history-AllAnswered_example : AllAnswered (get_history values 500 talk)
get_history-AllAnswered_example = get_history-AllAnswered values 500 talk

-- The later half of this history begins with the results of calls that it has not.
get_history-half : waiting [] (slice_history (get_history values 500 talk) 2) ≡ none
unfolding get_history expand_message slice_history
get_history-half = refl

abbrev turn_services : TurnServices String ℕ
turn_services = record {
  values = values;
  memory_window = 500;
  max_iterations = 5;
  tool_search_enabled = true;
  render = λ request w. "hi" ∷ [];
  save = λ session w. (none, session, w);
}

abbrev hello : TurnMessage String
hello = record { content = "hi"; media = []; channel = "cli"; chat_id = "1"; timestamp = "t" }

abbrev before_turn : TurnState String ℕ
before_turn = record {
  session = talk;
  discovery = record { unlocked = []; capacity = 5 };
  world = 0;
}

run_turn-Settles_example :
    Settles services turn_services hello [] ""
      (run_turn services turn_services hello [] "" [] before_turn).0
run_turn-Settles_example = run_turn-Settles services turn_services hello [] "" [] before_turn
