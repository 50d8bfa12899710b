-- ===== src/Agent/Reasoner/Loop.antt =====
-- agent/core/reasoner.py: the iterations of `run`.
pub mod Answered
pub mod Asked
pub mod Replies
pub mod Invariants
use Prim.Native.String.{◌++◌ as str_append}
use minicode_agent_runtime.Prelude.{
  ℕ, String, Bool, true, false, zero, suc, ◌+◌, leb, if◌then◌else◌, List, [], ◌∷◌, ◌++◌, Option,
  none, some, str_eq, truthy, ◌&&◌, ◌||◌, map,
}
use minicode_agent_runtime.Tools.Registry.{get_schemas, get_always_on_names}
use minicode_agent_runtime.Agent.Reasoner.{
  Failure, Attempt, answered, failed, ToolCall, ChatResponse, assistant_calls, runtime_hint,
  CallRecord, LoopState, Services, minus, given,
}
use minicode_agent_runtime.Agent.Reasoner.Calls.{run_calls}
use minicode_agent_runtime.Agent.Reasoner.Finish.{
  ReasonerResult, content_text, estimate_messages_tokens, tool_call_signature, loop_state_hint,
  stop_early, progress_of, final_reply,
}

-- `_TOOL_LOOP_REPEAT_LIMIT`
abbrev pub tool_loop_repeat_limit : ℕ
tool_loop_repeat_limit = 3

-- What one iteration of `run` comes to: the end, or the state of the next.
pub data Round (Any W : Type 0) : Type 0 where
  over : Attempt (ReasonerResult Any) → LoopState Any W → Round Any W
  again : LoopState Any W → Round Any W

abbrev pub continue_round :
    {Any W : Type 0}
    → (LoopState Any W → Attempt (ReasonerResult Any) × LoopState Any W)
    → Round Any W
    → Attempt (ReasonerResult Any) × LoopState Any W
continue_round k (over r st) = (r, st)
continue_round k (again st) = k st

abbrev pub ended : {Any W : Type 0} → Attempt (ReasonerResult Any) × LoopState Any W → Round Any W
ended (r, st) = over r st

module _ {Any W : Type 0} (s : Services Any W) where
  -- 7: after the calls of a round, unless the sink of the progress raises
  after_progress : LoopState Any W → Option Failure × W → Round Any W
  after_progress st (some e, w) = over (failed e) (record st { world = w })
  after_progress st (none, w) =
      let hint = loop_state_hint s st.visible (get_always_on_names (s.registry w)) in
      again (record st { messages = st.messages ++ runtime_hint hint ∷ []; world = w })

  note_group : ChatResponse Any → List (CallRecord Any) × LoopState Any W → LoopState Any W
  note_group r (records, st) = record st {
    tool_chain = st.tool_chain ++ record { text = r.content; calls = records } ∷ [];
  }

  unfoldable pub asked : ChatResponse Any → LoopState Any W → LoopState Any W
  asked r st = record st { messages = st.messages ++ assistant_calls r.content r.tool_calls ∷ [] }

  -- 6 and 7: the calls of a response
  unfoldable pub calls_round : ChatResponse Any → LoopState Any W → Round Any W
  unfolding after_progress note_group
  calls_round r st =
      let st' = note_group r (run_calls s r.tool_calls [] (asked r st)) in
      after_progress st' (s.notify (progress_of s r none st') st'.world)

  -- 5: how often in a row the response has had these calls
  unfoldable pub count_repeats : String → LoopState Any W → LoopState Any W
  count_repeats signature st =
      if truthy signature && str_eq signature st.last_signature
      then record st { repeat_count = st.repeat_count + 1 }
      else record st { repeat_count = 1; last_signature = signature }

  unfoldable pub guarded_round : ℕ → ChatResponse Any → LoopState Any W → Round Any W
  guarded_round n r st =
      let st' = count_repeats (tool_call_signature s r.tool_calls) st in
      if leb tool_loop_repeat_limit st'.repeat_count
      then ended (stop_early s "tool_call_loop" (n + 1) st')
      else calls_round r st'

  has_calls : List (ToolCall Any) → Bool
  has_calls [] = false
  has_calls (c ∷ cs) = true

  heard : ChatResponse Any → W → LoopState Any W → LoopState Any W
  heard r w st = record st {
    world = w;
    streamed = st.streamed || (s.sink && truthy (content_text r));
  }

  after_chat : ℕ → LoopState Any W → Attempt (ChatResponse Any) × W → Round Any W
  after_chat n st (failed e, w) = over (failed e) (record st { world = w })
  after_chat n st (answered r, w) =
      let st' = heard r w st in
      if has_calls r.tool_calls then guarded_round n r st' else ended (final_reply s r st')

  sampled : LoopState Any W → LoopState Any W
  sampled st = record st {
    samples = st.samples ++ estimate_messages_tokens s.payload_length st.messages ∷ [];
  }

  -- One iteration, number `n` from 0
  unfoldable pub round : ℕ → LoopState Any W → Round Any W
  unfolding after_chat has_calls sampled heard
  round n st =
      after_chat n (sampled st)
        (s.chat st.messages (get_schemas (s.registry st.world) st.visible) st.world)

  -- The loop, with the iterations that are left and those that are done
  unfoldable pub iterate : ℕ → ℕ → LoopState Any W → Attempt (ReasonerResult Any) × LoopState Any W
  iterate zero n st = stop_early s "max_iterations" n st
  iterate (suc left) n st = continue_round (iterate left (n + 1)) (round n st)

  -- 1 and 2
  unfoldable pub start_state : Bool → List Any → Option (List String) → W → LoopState Any W
  start_state tool_search_enabled initial preloaded w =
      let always_on = get_always_on_names (s.registry w) in
      record {
        messages = map given initial;
        tools_used = [];
        tool_chain = [];
        last_signature = "";
        repeat_count = 0;
        visible =
            if tool_search_enabled
            then some
                (always_on ++ minus (elim preloaded [ none ↦ [] | some names ↦ names ]) always_on)
            else none;
        streamed = false;
        samples = [];
        world = w;
      }

  -- `run`
  unfoldable pub run :
      ℕ
      → Bool
      → List Any
      → Option (List String)
      → W
      → Attempt (ReasonerResult Any) × LoopState Any W
  run max_iterations tool_search_enabled initial preloaded w =
      iterate max_iterations 0 (start_state tool_search_enabled initial preloaded w)
