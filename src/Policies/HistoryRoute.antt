-- ===== src/Policies/HistoryRoute.antt =====
-- agent/policies/history_route.py: whether a message needs memories of the past.
pub mod Outcome
use minicode_agent_runtime.Prelude.{
  ℕ, String, Bool, true, false, if◌then◌else◌, List, [], ◌∷◌, Option, none, some, str_eq, truthy,
  or_text, strip, any, not, ◌||◌,
}

pub data Source : Type 0 where
  heuristic llm fallback : Source

pub data Confidence : Type 0 where
  high medium low : Confidence

pub data ReasonCode : Type 0 where
  route_disabled flow_execution_state llm_no_retrieve llm_retrieve : ReasonCode
  llm_low_confidence_fail_open llm_exception_fail_open empty_query_fallback : ReasonCode

pub record DecisionMeta : Type 0 where
  pub source : Source
  pub confidence : Confidence
  pub reason_code : ReasonCode

pub record RouteDecision : Type 0 where
  pub needs_history : Bool
  pub rewritten_query : String
  pub fail_open : Bool
  pub latency_ms : ℕ
  pub meta : DecisionMeta

-- What the policy reads of a turn's metadata: none is a value that is no list, or no text.
pub record Metadata : Type 0 where
  pub last_turn_had_task_tool : Bool
  pub recent_task_tools : Option (List (Option String))

-- What came of the model: an exception, a reply without a JSON object, or the object's entries.
pub data Reply : Type 0 where
  failed : Reply
  no_object : Reply
  object : (decision rewritten confidence : Option String) → Reply

-- `_FLOW_TRIGGER_WORDS`
abbrev pub flow_trigger_words : List String
flow_trigger_words = "步骤" ∷ "流程" ∷ "下次" ∷ "按这个逻辑" ∷ []

-- What the source uses of `str` and `re`: case, `x in s`, the search for a sequence of steps, and
-- the text before the options of a question, one function for each pattern.
pub record TextLib : Type 0 where
  pub upper : String → String
  pub lower : String → String
  pub within : String → String → Bool
  pub has_sequence : String → Bool
  pub before_options : String → Option String
  pub before_choices : String → Option String

abbrev pub or_default : Option String → String → String
or_default none d = d
or_default (some s) d = s

abbrev pub tool_named : Option String → Bool
tool_named none = false
tool_named (some s) = truthy s

abbrev pub any_tool : Option (List (Option String)) → Bool
any_tool none = false
any_tool (some tools) = any tool_named tools

-- `_normalize_confidence`
unfoldable pub normalize_confidence : String → Confidence
normalize_confidence value =
    if str_eq value "high" then high else (if str_eq value "medium" then medium else low)

module _ (lib : TextLib) where
  -- The first pattern that is found cuts the text.
  cut_at : String → Option String → Option String → String
  cut_at text (some start) other = strip start
  cut_at text none (some start) = strip start
  cut_at text none none = text

  -- `_strip_multiple_choice_block`
  unfoldable pub strip_multiple_choice_block : String → String
  unfolding cut_at
  strip_multiple_choice_block user_msg =
      let text = strip user_msg in
      if truthy text then cut_at text (lib.before_options text) (lib.before_choices text) else ""

  unfoldable pub is_flow_execution_state : String → Metadata → Bool
  is_flow_execution_state user_msg metadata =
      any (λ word. lib.within word user_msg) flow_trigger_words
      || lib.has_sequence user_msg
      || metadata.last_turn_had_task_tool
      || any_tool metadata.recent_task_tools

  unfoldable pub build_decision :
      ℕ → Bool → String → Bool → Source → Confidence → ReasonCode → RouteDecision
  build_decision latency needs query fail_open source confidence code = record {
    needs_history = needs;
    rewritten_query = query;
    fail_open = fail_open;
    latency_ms = latency;
    meta = record { source = source; confidence = confidence; reason_code = code };
  }

  -- The rest of `decide` once the reply's entries are read.
  unfoldable pub conclude : ℕ → String → String → String → Confidence → RouteDecision
  conclude latency default_query decision rewritten low =
      build_decision latency true (or_text rewritten default_query) true llm low
        llm_low_confidence_fail_open
  conclude latency default_query decision rewritten confidence =
      let needs = not (str_eq decision "NO_RETRIEVE") in
      if truthy rewritten
      then build_decision latency needs rewritten false llm confidence
          (if needs then llm_retrieve else llm_no_retrieve)
      else build_decision latency needs default_query false llm confidence empty_query_fallback

  unfoldable pub after_reply : ℕ → String → Reply → RouteDecision
  after_reply latency default_query failed =
      build_decision latency true default_query true fallback low llm_exception_fail_open
  after_reply latency default_query no_object =
      conclude latency default_query "" "" (normalize_confidence "low")
  after_reply latency default_query (object decision rewritten confidence) =
      conclude latency default_query (lib.upper (or_default decision ""))
        (strip (or_default rewritten ""))
        (normalize_confidence (lib.lower (or_default confidence "medium")))

  -- `decide`; `ask` is the model's reply to the query and the recent history, within its time.
  unfoldable pub decide :
      Bool → (String → String → Reply) → ℕ → String → Metadata → String → RouteDecision
  unfolding after_reply
  decide enabled ask latency user_msg metadata recent_history =
      let default_query = or_text (strip_multiple_choice_block user_msg) user_msg in
      if not enabled
      then build_decision latency true default_query false heuristic high route_disabled
      else (if is_flow_execution_state user_msg metadata
          then build_decision latency true default_query false heuristic high flow_execution_state
          else after_reply latency default_query (ask default_query recent_history))
