-- ===== src/Agent/Reasoner/Loop/Replies.antt =====
-- agent/core/reasoner.py: what `run` comes to, on every path.
use minicode_agent_runtime.Prelude.{
  ℕ, String, true, ◌≡◌, refl, ap, ◌∙◌, List, [], ◌∷◌, ◌++◌, Option, none, some, Bool-cases, inl,
  inr, ◌+◌, truthy, str_eq, ◌&&◌, ◌≤◌, ◌⊎◌, length, truthy-append, or_text-truthy, strip, arith,
  length-append,
}
use minicode_agent_runtime.Agent.Reasoner.{
  ToolCall, ChatResponse, Message, runtime_hint, Failure, Attempt, answered, failed, CallRecord,
  LoopState, Services, Progress, text_or, Bool, assistant,
}
use minicode_agent_runtime.Agent.Reasoner.Calls.{
  run_call, run_calls, note_call, refuse_call, is_visible,
}
use minicode_agent_runtime.Agent.Reasoner.Finish.{
  stop_early, ReasonerResult, progress_of, after_notice, build_result, estimate_messages_tokens,
  summary_prompt, fallback_summary, summary_text, content_text, tool_call_signature, final_reply,
}
use minicode_agent_runtime.Agent.Reasoner.Loop.{
  Round, over, again, after_progress, note_group, asked, calls_round, count_repeats, guarded_round,
  iterate, run, after_chat, round, heard, sampled, start_state, suc, leb, get_schemas,
  continue_round, tool_loop_repeat_limit, has_calls,
}
use Prim.Native.Nat.{zero}

module _ {Any W : Type 0} (s : Services Any W) where
  run_call-samples :
      (c : ToolCall Any) (st : LoopState Any W) → (run_call s c st).1.samples ≡ st.samples
  unfolding run_call note_call refuse_call
  run_call-samples c st = elim (Bool-cases (is_visible st.visible c.name)) [
    | inl e ↦ rw e refl
    | inr e ↦ rw e refl
  ]

  run_calls-samples :
      (cs : List (ToolCall Any)) (records : List (CallRecord Any)) (st : LoopState Any W)
      → (run_calls s cs records st).1.samples ≡ st.samples
  unfolding run_calls
  run_calls-samples [] records st = refl
  run_calls-samples (c ∷ cs) records st =
      run_calls-samples cs (records ++ (run_call s c st).0 ∷ []) (run_call s c st).1
      ∙ run_call-samples c st

  count_repeats-samples :
      (signature : String) (st : LoopState Any W)
      → (count_repeats s signature st).samples ≡ st.samples
  unfolding count_repeats
  count_repeats-samples signature st =
      elim (Bool-cases (truthy signature && str_eq signature st.last_signature)) [
        | inl e ↦ rw e refl
        | inr e ↦ rw e refl
      ]

  fallback_summary-truthy :
      (n : ℕ) (tools_used : List String) → truthy (fallback_summary s n tools_used) ≡ true
  unfolding fallback_summary
  fallback_summary-truthy n tools_used = truthy-append "这次任务还没完全收束。已尝试 " _ refl

  summary_text-truthy :
      (fixed : String) (out : Attempt (ChatResponse Any))
      → truthy fixed ≡ true
      → truthy (summary_text s fixed out) ≡ true
  unfolding summary_text
  summary_text-truthy fixed (failed e) h = h
  summary_text-truthy fixed (answered r) h = or_text-truthy (strip (content_text r)) fixed h

  -- What the provider raised on some messages, or the sink of the progress on some notice
  abbrev pub Blamed : Failure → Type 0
  Blamed e =
      ((ms : List (Message Any)) × (tools : List Any) × (w : W) × ((s.chat ms tools w).0
          ≡ failed e))
      ⊎ ((p : Progress Any) × (w : W) × ((s.notify p w).0 ≡ some e))

  module _ (bound : ℕ) where
    -- A reply that is not empty after so many iterations at most, or an exception from outside
    abbrev pub Ends : Attempt (ReasonerResult Any) → Type 0
    Ends (failed e) = Blamed e
    Ends (answered r) = (truthy r.reply ≡ true) × (length r.samples ≤ bound)

    -- The end, or so many iterations left
    abbrev Goes : ℕ → Round Any W → Type 0
    Goes left (over r st) = Ends r
    Goes left (again st) = length st.samples + left ≤ bound

    stop_early-Ends :
        (reason : String) (n : ℕ) (st : LoopState Any W)
        → length st.samples ≤ bound
        → Ends (stop_early s reason n st).0
    unfolding stop_early build_result
    stop_early-Ends reason n st h =
        let prompt = runtime_hint (summary_prompt s reason n st.tools_used) in
        (
          summary_text-truthy (fallback_summary s n st.tools_used)
              (s.chat (st.messages ++ prompt ∷ []) [] st.world).0
              (fallback_summary-truthy n st.tools_used),
          h,
        )

    text_or-truthy : (content : Option String) → truthy (text_or content "（无响应）") ≡ true
    text_or-truthy none = refl
    text_or-truthy (some t) = or_text-truthy t "（无响应）" refl

    after_notice-Ends :
        (r : ChatResponse Any) (st : LoopState Any W) (p : Progress Any) (w : W)
        (out : Option Failure × W)
        → length st.samples ≤ bound
        → s.notify p w ≡ out
        → Ends (after_notice s r st out).0
    unfolding after_notice build_result
    after_notice-Ends r st p w (some e, w') h same = inr (p, w, ap (λ o. o.0) same)
    after_notice-Ends r st p w (none, w') h same = (text_or-truthy r.content, h)

    after_progress-Goes :
        (left : ℕ) (st : LoopState Any W) (p : Progress Any) (w : W) (out : Option Failure × W)
        → length st.samples + left ≤ bound
        → s.notify p w ≡ out
        → Goes left (after_progress s st out)
    unfolding after_progress
    after_progress-Goes left st p w (some e, w') h same = inr (p, w, ap (λ o. o.0) same)
    after_progress-Goes left st p w (none, w') h same = h

    calls_round-Goes :
        (left : ℕ) (r : ChatResponse Any) (st : LoopState Any W)
        → length st.samples + left ≤ bound
        → Goes left (calls_round s r st)
    unfolding calls_round note_group asked
    calls_round-Goes left r st h =
        let st' = note_group s r (run_calls s r.tool_calls [] (asked s r st)) in
        let p = progress_of s r none st' in
        after_progress-Goes left st' p st'.world (s.notify p st'.world)
          (rw (run_calls-samples r.tool_calls [] (asked s r st)) h) refl

    guarded_round-Goes :
        (left n : ℕ) (r : ChatResponse Any) (st : LoopState Any W)
        → length st.samples + left ≤ bound
        → Goes left (guarded_round s n r st)
    unfolding guarded_round
    guarded_round-Goes left n r st h =
        let signature = tool_call_signature s r.tool_calls in
        let st' = count_repeats s signature st in
        let h' : length st'.samples + left ≤ bound = rw (count_repeats-samples signature st) h in
        elim (Bool-cases (leb tool_loop_repeat_limit st'.repeat_count)) [
          | inl e ↦ rw e (stop_early-Ends "tool_call_loop" (n + 1) st' (omega (arith, h')))
          | inr e ↦ rw e (calls_round-Goes left r st' h')
        ]

    after_chat-Goes :
        (left n : ℕ) (st : LoopState Any W) (ms : List (Message Any)) (tools : List Any) (w : W)
        (out : Attempt (ChatResponse Any) × W)
        → length st.samples + left ≤ bound
        → s.chat ms tools w ≡ out
        → Goes left (after_chat s n st out)
    unfolding after_chat heard final_reply
    after_chat-Goes left n st ms tools w (failed e, w') h same =
        inl (ms, tools, w, ap (λ o. o.0) same)
    after_chat-Goes left n st ms tools w (answered r, w') h same =
        let st' = heard s r w' st in
        let st'' = record st' { messages = st'.messages ++ assistant r.content ∷ [] } in
        let p = progress_of s r r.thinking st'' in
        elim (Bool-cases (has_calls s r.tool_calls)) [
          | inl e ↦ rw e (guarded_round-Goes left n r st' h)
          | inr e ↦ rw e (after_notice-Ends r st'' p w' (s.notify p w') (omega (arith, h)) refl)
        ]

    round-Goes :
        (left n : ℕ) (st : LoopState Any W)
        → length st.samples + suc left ≤ bound
        → Goes left (round s n st)
    unfolding round sampled
    round-Goes left n st h =
        let schemas = get_schemas (s.registry st.world) st.visible in
        after_chat-Goes left n (sampled s st) st.messages schemas st.world
          (s.chat st.messages schemas st.world)
          (omega (
            arith,
            h,
            length-append st.samples (estimate_messages_tokens s.payload_length st.messages ∷ []),
          ))
          refl

    iterate-Ends :
        (left n : ℕ) (st : LoopState Any W)
        → length st.samples + left ≤ bound
        → Ends (iterate s left n st).0
    unfolding iterate
    iterate-Ends zero n st h = stop_early-Ends "max_iterations" n st (omega (arith, h))
    iterate-Ends (suc left) n st h =
        continue_round-Ends (round s n st) (λ st' h'. iterate-Ends left (n + 1) st' h')
          (round-Goes left n st h)
      where
        continue_round-Ends :
            (out : Round Any W)
            → ((st' : LoopState Any W)
                → length st'.samples + left ≤ bound
                → Ends (iterate s left (n + 1) st').0)
            → Goes left out
            → Ends (continue_round (iterate s left (n + 1)) out).0
        continue_round-Ends (over r st) ih h = h
        continue_round-Ends (again st) ih h = ih st h

  -- run comes to an end: with a reply that is not empty, after max_iterations iterations at most,
  -- or with an exception that the provider or the sink of the progress raises.
  pub run-Ends :
      (max_iterations : ℕ) (tool_search_enabled : Bool) (initial : List Any)
      (preloaded : Option (List String)) (w : W)
      → Ends max_iterations (run s max_iterations tool_search_enabled initial preloaded w).0
  unfolding run start_state
  run-Ends max_iterations tool_search_enabled initial preloaded w =
      iterate-Ends max_iterations max_iterations 0
        (start_state s tool_search_enabled initial preloaded w) (omega arith)
