-- ===== src/Agent/Reasoner/Loop/Asked.antt =====
-- agent/core/reasoner.py: `run` with two providers that answer alike where every call is answered.
use mathlib.Core.List.{append-nil}
use minicode_agent_runtime.Prelude.{
  All, some, sym, true, ℕ, String, Bool, ◌≡◌, refl, List, [], ◌∷◌, ◌++◌, Option, map, zero, suc,
  ◌+◌,
}
use minicode_agent_runtime.Tools.Registry.{get_schemas}
use minicode_agent_runtime.Agent.Reasoner.{
  ToolCall, ChatResponse, Message, given, runtime_hint, Failure, Attempt, answered, failed,
  CallRecord, LoopState, Services,
}
use minicode_agent_runtime.Agent.Reasoner.Calls.{
  run_call, run_calls, execute_call, refuse_call, note_call, request_of, invoke, exclude_names,
}
use minicode_agent_runtime.Agent.Reasoner.Finish.{
  stop_early, final_reply, progress_of, tool_call_signature, signature_parts, after_notice,
  build_result, loop_state_hint, summary_prompt, fallback_summary, summary_text,
}
use minicode_agent_runtime.Agent.Reasoner.Loop.{
  Round, over, again, continue_round, after_progress, note_group, asked, calls_round, count_repeats,
  guarded_round, has_calls, after_chat, round, iterate, start_state, run, heard, sampled,
}
use minicode_agent_runtime.Agent.Reasoner.Loop.Answered.{
  count_repeats-Continues, round-Ready, Ready,
}
use minicode_agent_runtime.Agent.Reasoner.Protocol.{Continues, append-Continues, is_added, waiting}

abbrev pub Provider : (Any W : Type 0) → Type 0
Provider Any W = List (Message Any) → List Any → W → Attempt (ChatResponse Any) × W

module _ {Any W : Type 0} (s : Services Any W) (chat : Provider Any W) where
  abbrev pub with_chat : Services Any W
  with_chat = record s { chat = chat }

  run_call-with_chat :
      (c : ToolCall Any) (st : LoopState Any W) → run_call with_chat c st ≡ run_call s c st
  unfolding run_call execute_call note_call refuse_call request_of invoke exclude_names
  run_call-with_chat c st = refl

  run_calls-with_chat :
      (cs : List (ToolCall Any)) (records : List (CallRecord Any)) (st : LoopState Any W)
      → run_calls with_chat cs records st ≡ run_calls s cs records st
  unfolding run_calls
  run_calls-with_chat [] records st = refl
  run_calls-with_chat (c ∷ cs) records st =
      rw (run_call-with_chat c st)
        (run_calls-with_chat cs (records ++ (run_call s c st).0 ∷ []) (run_call s c st).1)

  signature_parts-with_chat :
      (cs : List (ToolCall Any)) → signature_parts with_chat cs ≡ signature_parts s cs
  unfolding signature_parts
  signature_parts-with_chat [] = refl
  signature_parts-with_chat (c ∷ cs) = rw (signature_parts-with_chat cs) refl

  signature-with_chat :
      (cs : List (ToolCall Any)) → tool_call_signature with_chat cs ≡ tool_call_signature s cs
  unfolding tool_call_signature
  signature-with_chat cs = rw (signature_parts-with_chat cs) refl

  after_progress-with_chat :
      (st : LoopState Any W) (out : Option Failure × W)
      → after_progress with_chat st out ≡ after_progress s st out
  unfolding after_progress loop_state_hint
  after_progress-with_chat st out = refl

  calls_round-with_chat :
      (r : ChatResponse Any) (st : LoopState Any W)
      → calls_round with_chat r st ≡ calls_round s r st
  unfolding calls_round note_group asked after_progress progress_of loop_state_hint
  calls_round-with_chat r st = rw (run_calls-with_chat r.tool_calls [] (asked s r st)) refl

  count_repeats-with_chat :
      (signature : String) (st : LoopState Any W)
      → count_repeats with_chat signature st ≡ count_repeats s signature st
  unfolding count_repeats
  count_repeats-with_chat signature st = refl

  heard-with_chat :
      (r : ChatResponse Any) (w : W) (st : LoopState Any W)
      → heard with_chat r w st ≡ heard s r w st
  unfolding heard
  heard-with_chat r w st = refl

  final_reply-with_chat :
      (r : ChatResponse Any) (st : LoopState Any W)
      → final_reply with_chat r st ≡ final_reply s r st
  unfolding final_reply after_notice progress_of build_result
  final_reply-with_chat r st = refl

module _ {Any W : Type 0} (s : Services Any W) (chat : Provider Any W) (base : List (Message Any))
    (agree : (ms : List (Message Any)) (tools : List Any) (w : W)
      → Continues base [] ms
      → chat ms tools w ≡ s.chat ms tools w) where
  stop_early-with_chat :
      (reason : String) (n : ℕ) (st : LoopState Any W)
      → Continues base [] st.messages
      → stop_early (with_chat s chat) reason n st ≡ stop_early s reason n st
  unfolding stop_early build_result summary_prompt fallback_summary summary_text
  stop_early-with_chat reason n st h =
      rw
        (agree (st.messages ++ runtime_hint (summary_prompt s reason n st.tools_used) ∷ []) []
          st.world
          (append-Continues s base st.messages
            (runtime_hint (summary_prompt s reason n st.tools_used)) h refl refl))
        refl

  guarded_round-with_chat :
      (n : ℕ) (r : ChatResponse Any) (st : LoopState Any W)
      → Continues base [] st.messages
      → guarded_round (with_chat s chat) n r st ≡ guarded_round s n r st
  unfolding guarded_round
  guarded_round-with_chat n r st h =
      let signature = tool_call_signature s r.tool_calls in
      let st' = count_repeats s signature st in
      rw
        (
          signature-with_chat s chat r.tool_calls,
          count_repeats-with_chat s chat signature st,
          stop_early-with_chat "tool_call_loop" (n + 1) st'
              (count_repeats-Continues s base signature st h),
          calls_round-with_chat s chat r st',
        )
        refl

  after_chat-with_chat :
      (n : ℕ) (st : LoopState Any W) (out : Attempt (ChatResponse Any) × W)
      → Continues base [] st.messages
      → after_chat (with_chat s chat) n st out ≡ after_chat s n st out
  unfolding after_chat has_calls heard
  after_chat-with_chat n st (failed e, w) h = refl
  after_chat-with_chat n st (answered r, w) h =
      rw
        (
          guarded_round-with_chat n r (heard s r w st) h,
          final_reply-with_chat s chat r (heard s r w st),
        )
        refl

  round-with_chat :
      (n : ℕ) (st : LoopState Any W)
      → Continues base [] st.messages
      → round (with_chat s chat) n st ≡ round s n st
  unfolding round sampled
  round-with_chat n st h =
      let schemas = get_schemas (s.registry st.world) st.visible in
      rw (agree st.messages schemas st.world h)
        (after_chat-with_chat n (sampled s st) (s.chat st.messages schemas st.world) h)

  iterate-with_chat :
      (left n : ℕ) (st : LoopState Any W)
      → Continues base [] st.messages
      → iterate (with_chat s chat) left n st ≡ iterate s left n st
  unfolding iterate
  iterate-with_chat zero n st h = stop_early-with_chat "max_iterations" n st h
  iterate-with_chat (suc left) n st h = rw (round-with_chat n st h) (
      continue_round-with_chat (round s n st) (λ st' h'. iterate-with_chat left (n + 1) st' h')
        (round-Ready s base n st h))
    where
      continue_round-with_chat :
          (out : Round Any W)
          → ((st' : LoopState Any W)
              → Continues base [] st'.messages
              → iterate (with_chat s chat) left (n + 1) st' ≡ iterate s left (n + 1) st')
          → Ready base out
          → continue_round (iterate (with_chat s chat) left (n + 1)) out
            ≡ continue_round (iterate s left (n + 1)) out
      continue_round-with_chat (over r st) ih h = refl
      continue_round-with_chat (again st) ih h = ih st h

-- Take a provider that answers as the given one on every list that begins with the initial
-- messages as they are, and goes on with messages that run itself makes, among which each call of
-- a tool has had its result, in the order of the calls and before any message but a file's
-- contents. Then run ends alike with it, in its result and in its last state. Of the calls and
-- results among the initial messages nothing is said.
pub run-with_chat :
    {Any W : Type 0}
    → (s : Services Any W) (chat : Provider Any W) (initial : List Any)
    → ((rest : List (Message Any)) (tools : List Any) (w : W)
        → All (λ m. is_added m ≡ true) rest
        → waiting [] rest ≡ some []
        → chat (map given initial ++ rest) tools w ≡ s.chat (map given initial ++ rest) tools w)
    → (max_iterations : ℕ) (tool_search_enabled : Bool) (preloaded : Option (List String)) (w : W)
    → run (with_chat s chat) max_iterations tool_search_enabled initial preloaded w
      ≡ run s max_iterations tool_search_enabled initial preloaded w
unfolding run start_state
run-with_chat s chat initial agree max_iterations tool_search_enabled preloaded w =
    iterate-with_chat s chat (map given initial)
      (λ ms tools w' (rest, e, added, h). rw e (agree rest tools w' added h)) max_iterations 0
      (start_state s tool_search_enabled initial preloaded w)
      ([], sym (append-nil (map given initial)), tt, refl)
