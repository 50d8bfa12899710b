-- ===== src/Agent/Reasoner/Loop/Answered.antt =====
-- agent/core/reasoner.py: what the provider is asked with, in every iteration of `run`.
use minicode_agent_runtime.Prelude.{
  truthy, str_eq, ◌&&◌, leb, ℕ, String, ◌≡◌, refl, List, [], ◌∷◌, Option, none, some, Bool-cases,
  inl, inr,
}
use minicode_agent_runtime.Agent.Reasoner.{
  Message, ChatResponse, assistant_calls, Failure, Attempt, answered, failed, LoopState, Services,
}
use minicode_agent_runtime.Agent.Reasoner.Calls.{run_calls}
use minicode_agent_runtime.Agent.Reasoner.Finish.{progress_of, progress_of, tool_call_signature}
use minicode_agent_runtime.Tools.Registry.{get_schemas}
use minicode_agent_runtime.Agent.Reasoner.Loop.{
  heard, sampled, tool_loop_repeat_limit, Round, over, again, after_progress, note_group, asked,
  calls_round, count_repeats, guarded_round, has_calls, after_chat, round,
}
use minicode_agent_runtime.Agent.Reasoner.Protocol.{
  Continues, Continues-append, ids, run_calls-Waits, append-Continues,
}

module _ {Any W : Type 0} (base : List (Message Any)) where
  -- The next iteration, if there is one, starts with the given messages and those that the turn
  -- has added, with every call answered.
  abbrev pub Ready : Round Any W → Type 0
  Ready (over r st) = Unit
  Ready (again st) = Continues base [] st.messages

module _ {Any W : Type 0} (s : Services Any W) (base : List (Message Any)) where
  after_progress-Ready :
      (st : LoopState Any W) (out : Option Failure × W)
      → Continues base [] st.messages
      → Ready base (after_progress s st out)
  unfolding after_progress
  after_progress-Ready st (some e, w) h = tt
  after_progress-Ready st (none, w) h = append-Continues s base st.messages _ h refl refl

  calls_round-Ready :
      (r : ChatResponse Any) (st : LoopState Any W)
      → Continues base [] st.messages
      → Ready base (calls_round s r st)
  unfolding calls_round note_group asked
  calls_round-Ready r st h =
      let st' = note_group s r (run_calls s r.tool_calls [] (asked s r st)) in
      after_progress-Ready st' (s.notify (progress_of s r none st') st'.world) (
        run_calls-Waits s base r.tool_calls [] (asked s r st) (
          Continues-append base [] (ids r.tool_calls) st.messages
            (assistant_calls r.content r.tool_calls ∷ []) h refl (refl, tt)))

  count_repeats-messages :
      (signature : String) (st : LoopState Any W)
      → (count_repeats s signature st).messages ≡ st.messages
  unfolding count_repeats
  count_repeats-messages signature st =
      elim (Bool-cases (truthy signature && str_eq signature st.last_signature)) [
        | inl e ↦ rw e refl
        | inr e ↦ rw e refl
      ]

  pub count_repeats-Continues :
      (signature : String) (st : LoopState Any W)
      → Continues base [] st.messages
      → Continues base [] (count_repeats s signature st).messages
  count_repeats-Continues signature st h = rw (count_repeats-messages signature st) h

  guarded_round-Ready :
      (n : ℕ) (r : ChatResponse Any) (st : LoopState Any W)
      → Continues base [] st.messages
      → Ready base (guarded_round s n r st)
  unfolding guarded_round
  guarded_round-Ready n r st h =
      let st' = count_repeats s (tool_call_signature s r.tool_calls) st in
      elim (Bool-cases (leb tool_loop_repeat_limit st'.repeat_count)) [
        | inl e ↦ rw e tt
        | inr e ↦ rw e (
            calls_round-Ready r st'
              (count_repeats-Continues (tool_call_signature s r.tool_calls) st h))
      ]

  after_chat-Ready :
      (n : ℕ) (st : LoopState Any W) (out : Attempt (ChatResponse Any) × W)
      → Continues base [] st.messages
      → Ready base (after_chat s n st out)
  unfolding after_chat heard
  after_chat-Ready n st (failed e, w) h = tt
  after_chat-Ready n st (answered r, w) h = elim (Bool-cases (has_calls s r.tool_calls)) [
    | inl e ↦ rw e (guarded_round-Ready n r (heard s r w st) h)
    | inr e ↦ rw e tt
  ]

  pub round-Ready :
      (n : ℕ) (st : LoopState Any W) → Continues base [] st.messages → Ready base (round s n st)
  unfolding round sampled
  round-Ready n st h =
      after_chat-Ready n (sampled s st)
        (s.chat st.messages (get_schemas (s.registry st.world) st.visible) st.world) h
