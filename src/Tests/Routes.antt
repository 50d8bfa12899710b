-- ===== src/Tests/Routes.antt =====
-- The route of history: samples and examples for agent/policies/history_route.py.
use minicode_agent_runtime.Prelude.{
  String, true, false, ◌≡◌, refl, none, some, [], ◌∷◌, str_eq, strip,
}
use minicode_agent_runtime.Policies.HistoryRoute.{
  Metadata, Reply, object, TextLib, decide, strip_multiple_choice_block, is_flow_execution_state,
  conclude, normalize_confidence, build_decision,
}

-- Texts without options or steps, the entries in the case they are wanted in.
abbrev plain_text : TextLib
plain_text = record {
  upper = λ s. s;
  lower = λ s. s;
  within = str_eq;
  has_sequence = λ s. false;
  before_options = λ s. none;
  before_choices = λ s. none;
}

abbrev no_tools : Metadata
no_tools = record { last_turn_had_task_tool = false; recent_task_tools = some (none ∷ []) }

abbrev declines : String → String → Reply
declines query history = object (some "NO_RETRIEVE") (some query) none

decide_declined : (decide plain_text true declines 3 "hello" no_tools "").needs_history ≡ false
unfolding decide is_flow_execution_state strip_multiple_choice_block strip conclude
    normalize_confidence build_decision
decide_declined = refl
