-- ===== src/Agent/Reasoner/Loop/Invariants.antt =====
-- agent/core/reasoner.py: what holds of the tools that were used and of those that are visible, when
-- every tool call preserves it.
use minicode_agent_runtime.Prelude.{
  ℕ, String, List, [], ◌∷◌, ◌++◌, Option, none, some, zero, suc, Bool-cases, inl, inr, ◌+◌, leb,
  truthy, str_eq, ◌&&◌,
}
use minicode_agent_runtime.Tools.Registry.{get_schemas}
use minicode_agent_runtime.Agent.Reasoner.{
  ToolCall, ChatResponse, Failure, Attempt, answered, failed, CallRecord, LoopState, Services,
}
use minicode_agent_runtime.Agent.Reasoner.Calls.{run_call, run_calls}
use minicode_agent_runtime.Agent.Reasoner.Finish.{
  stop_early, final_reply, ReasonerResult, progress_of, tool_call_signature, after_notice,
  build_result,
}
use minicode_agent_runtime.Agent.Reasoner.Loop.{
  Round, over, again, continue_round, after_progress, note_group, asked, calls_round, count_repeats,
  guarded_round, has_calls, after_chat, round, iterate, heard, sampled, tool_loop_repeat_limit,
}

module _ {Any : Type 0} (P : List String → Option (List String) → Type 0) where
  -- `P` of the tools in a result and of the visible names, or an exception
  abbrev pub Told : Attempt (ReasonerResult Any) → Type 0
  Told (failed e) = Unit
  Told (answered r) = P r.tools_used r.visible_names

module _ {Any W : Type 0} (s : Services Any W) (P : List String → Option (List String) → Type 0)
    (step : (c : ToolCall Any) (st : LoopState Any W)
      → P st.tools_used st.visible
      → P (run_call s c st).1.tools_used (run_call s c st).1.visible) where
  -- `P` of the result, if there is one, and of the state in which the run ended
  abbrev pub EndsKept : Attempt (ReasonerResult Any) × LoopState Any W → Type 0
  EndsKept (r, st) = Told P r × P st.tools_used st.visible

  abbrev Kept : Round Any W → Type 0
  Kept (over r st) = Told P r × P st.tools_used st.visible
  Kept (again st) = P st.tools_used st.visible

  run_calls_keeps :
      (cs : List (ToolCall Any)) (records : List (CallRecord Any)) (st : LoopState Any W)
      → P st.tools_used st.visible
      → P (run_calls s cs records st).1.tools_used (run_calls s cs records st).1.visible
  unfolding run_calls
  run_calls_keeps [] records st h = h
  run_calls_keeps (c ∷ cs) records st h =
      run_calls_keeps cs (records ++ (run_call s c st).0 ∷ []) (run_call s c st).1 (step c st h)

  stop_early-EndsKept :
      (reason : String) (n : ℕ) (st : LoopState Any W)
      → P st.tools_used st.visible
      → EndsKept (stop_early s reason n st)
  unfolding stop_early build_result
  stop_early-EndsKept reason n st h = (h, h)

  after_notice-EndsKept :
      (r : ChatResponse Any) (st : LoopState Any W) (out : Option Failure × W)
      → P st.tools_used st.visible
      → EndsKept (after_notice s r st out)
  unfolding after_notice build_result
  after_notice-EndsKept r st (some e, w) h = (tt, h)
  after_notice-EndsKept r st (none, w) h = (h, h)

  after_progress-Kept :
      (st : LoopState Any W) (out : Option Failure × W)
      → P st.tools_used st.visible
      → Kept (after_progress s st out)
  unfolding after_progress
  after_progress-Kept st (some e, w) h = (tt, h)
  after_progress-Kept st (none, w) h = h

  calls_round-Kept :
      (r : ChatResponse Any) (st : LoopState Any W)
      → P st.tools_used st.visible
      → Kept (calls_round s r st)
  unfolding calls_round note_group asked
  calls_round-Kept r st h =
      let st' = note_group s r (run_calls s r.tool_calls [] (asked s r st)) in
      after_progress-Kept st' (s.notify (progress_of s r none st') st'.world)
        (run_calls_keeps r.tool_calls [] (asked s r st) h)

  count_repeats_keeps :
      (signature : String) (st : LoopState Any W)
      → P st.tools_used st.visible
      → P (count_repeats s signature st).tools_used (count_repeats s signature st).visible
  unfolding count_repeats
  count_repeats_keeps signature st h =
      elim (Bool-cases (truthy signature && str_eq signature st.last_signature)) [
        | inl e ↦ rw e h
        | inr e ↦ rw e h
      ]

  guarded_round-Kept :
      (n : ℕ) (r : ChatResponse Any) (st : LoopState Any W)
      → P st.tools_used st.visible
      → Kept (guarded_round s n r st)
  unfolding guarded_round
  guarded_round-Kept n r st h =
      let st' = count_repeats s (tool_call_signature s r.tool_calls) st in
      let h' = count_repeats_keeps (tool_call_signature s r.tool_calls) st h in
      elim (Bool-cases (leb tool_loop_repeat_limit st'.repeat_count)) [
        | inl e ↦ rw e (stop_early-EndsKept "tool_call_loop" (n + 1) st' h')
        | inr e ↦ rw e (calls_round-Kept r st' h')
      ]

  after_chat-Kept :
      (n : ℕ) (st : LoopState Any W) (out : Attempt (ChatResponse Any) × W)
      → P st.tools_used st.visible
      → Kept (after_chat s n st out)
  unfolding after_chat heard final_reply
  after_chat-Kept n st (failed e, w) h = (tt, h)
  after_chat-Kept n st (answered r, w) h = elim (Bool-cases (has_calls s r.tool_calls)) [
    | inl e ↦ rw e (guarded_round-Kept n r (heard s r w st) h)
    | inr e ↦ rw e (after_notice-EndsKept r _ _ h)
  ]

  round-Kept : (n : ℕ) (st : LoopState Any W) → P st.tools_used st.visible → Kept (round s n st)
  unfolding round sampled
  round-Kept n st h =
      after_chat-Kept n (sampled s st)
        (s.chat st.messages (get_schemas (s.registry st.world) st.visible) st.world) h

  pub iterate-EndsKept :
      (left n : ℕ) (st : LoopState Any W)
      → P st.tools_used st.visible
      → EndsKept (iterate s left n st)
  unfolding iterate
  iterate-EndsKept zero n st h = stop_early-EndsKept "max_iterations" n st h
  iterate-EndsKept (suc left) n st h =
      continue_round-EndsKept (round s n st) (λ st' h'. iterate-EndsKept left (n + 1) st' h')
        (round-Kept n st h)
    where
      continue_round-EndsKept :
          (out : Round Any W)
          → ((st' : LoopState Any W)
              → P st'.tools_used st'.visible
              → EndsKept (iterate s left (n + 1) st'))
          → Kept out
          → EndsKept (continue_round (iterate s left (n + 1)) out)
      continue_round-EndsKept (over r st) ih h = h
      continue_round-EndsKept (again st) ih h = ih st h
