-- ===== src/Agent/Turn/Retry/Outcome.antt =====
-- agent/core/reasoner.py: what a turn comes to, and what it does to the session.
use minicode_agent_runtime.Prelude.{
  String, Bool, true, false, ◌≡◌, refl, ap, List, [], ◌∷◌, ◌++◌, Option, none, some, truthy, length,
  ◌⊎◌, inl, inr,
}
use minicode_agent_runtime.Session.{Session}
use minicode_agent_runtime.Session.History.{get_history}
use minicode_agent_runtime.Agent.Reasoner.{
  content_safety, context_length, other, Attempt, answered, failed, Message, Services,
}
use minicode_agent_runtime.Agent.Reasoner.Finish.{ReasonerResult}
use minicode_agent_runtime.Agent.Reasoner.Loop.{run}
use minicode_agent_runtime.Agent.Reasoner.Loop.Replies.{Ends, Blamed, run-Ends}
use minicode_agent_runtime.Agent.Turn.{AttemptPlan, build_attempt_plans}
use minicode_agent_runtime.Agent.Turn.Retry.{
  TurnMessage, TurnServices, TurnState, TurnRunResult, after_save, finish_turn, refused, after_run,
  try_plans, run_turn, trim_session, preloaded_of, initial_messages, or_history, result_of,
  plain_result,
}

module _ {Any W : Type 0} (s : Services Any W) (t : TurnServices Any W) (msg : TurnMessage Any)
    (skill_names : List String) (block : String) where
  -- A reply that is not empty; or an exception that the provider, the sink of the progress or the
  -- saving of the session raised, and no refusal of the provider
  abbrev pub Settles : Attempt (TurnRunResult Any) → Type 0
  Settles (answered r) = truthy r.reply ≡ true
  Settles (failed content_safety) = true ≡ false
  Settles (failed context_length) = true ≡ false
  Settles (failed (other e)) =
      Blamed s (other e) ⊎ ((session : Session Any) × (w : W) × ((t.save session w).0 ≡ some e))

  after_save-Settles :
      (r : TurnRunResult Any) (st : TurnState Any W) (session : Session Any) (w : W)
      (out : Option String × Session Any × W)
      → truthy r.reply ≡ true
      → t.save session w ≡ out
      → Settles (after_save s t msg skill_names block r st out).0
  unfolding after_save
  after_save-Settles r st session w (some e, session', w') h same =
      inr (session, w, ap (λ o. o.0) same)
  after_save-Settles r st session w (none, session', w') h same = h

  finish_turn-Settles :
      (first : Bool) (plan : AttemptPlan) (r : TurnRunResult Any) (st : TurnState Any W)
      → truthy r.reply ≡ true
      → Settles (finish_turn s t msg skill_names block first plan r st).0
  unfolding finish_turn
  finish_turn-Settles true plan r st h = h
  finish_turn-Settles false plan r st h =
      let session = trim_session s t msg skill_names block plan.history_window st.session in
      after_save-Settles r st session st.world (t.save session st.world) h refl

  refused-Settles :
      (text : String) (rest trace : List AttemptPlan)
      (next : TurnState Any W → Attempt (TurnRunResult Any) × TurnState Any W)
      (st : TurnState Any W)
      → truthy text ≡ true
      → Settles (next st).0
      → Settles (refused s t msg skill_names block text rest trace next st).0
  unfolding refused plain_result
  refused-Settles text [] trace next st h k = h
  refused-Settles text (p ∷ ps) trace next st h k = k

  after_run-Settles :
      (first : Bool) (plan : AttemptPlan) (rest trace : List AttemptPlan)
      (next : TurnState Any W → Attempt (TurnRunResult Any) × TurnState Any W)
      (st : TurnState Any W) (out : Attempt (ReasonerResult Any))
      → Ends s t.max_iterations out
      → Settles (next st).0
      → Settles (after_run s t msg skill_names block first plan rest trace next st out).0
  unfolding after_run result_of
  after_run-Settles first plan rest trace next st (answered r) h k =
      finish_turn-Settles first plan (result_of s t msg skill_names block trace plan r) st h.0
  after_run-Settles first plan rest trace next st (failed content_safety) h k =
      refused-Settles "你的消息触发了安全审查，无法处理。" rest trace next st refl k
  after_run-Settles first plan rest trace next st (failed context_length) h k =
      refused-Settles "上下文过长无法处理，请尝试新建对话。" rest trace next st refl k
  after_run-Settles first plan rest trace next st (failed (other e)) h k = inl h

  try_plans-Settles :
      (history : List (Message Any)) (preloaded : Option (List String)) (first : Bool)
      (trace plans : List AttemptPlan) (st : TurnState Any W)
      → Settles (try_plans s t msg skill_names block history preloaded first trace plans st).0
  unfolding try_plans plain_result
  try_plans-Settles history preloaded first trace [] st = refl
  try_plans-Settles history preloaded first trace (plan ∷ rest) st =
      let initial = initial_messages s t msg skill_names block history preloaded plan st.world in
      let ran = run s t.max_iterations t.tool_search_enabled initial preloaded st.world in
      let trace' = trace ++ plan ∷ [] in
      let st' = record st { world = ran.1.world } in
      after_run-Settles first plan rest trace'
        (try_plans s t msg skill_names block history preloaded false trace' rest) st' ran.0
        (run-Ends s t.max_iterations t.tool_search_enabled initial preloaded st.world)
        (try_plans-Settles history preloaded false trace' rest st')

  -- A turn gives a reply that is not empty, unless the provider or the sink of the progress raises
  -- something else than the two refusals, or the saving of the session raises; a refusal of the
  -- provider never leaves run_turn.
  pub run_turn-Settles :
      (base_history : List (Message Any)) (st : TurnState Any W)
      → Settles (run_turn s t msg skill_names block base_history st).0
  unfolding run_turn
  run_turn-Settles base_history st =
      let history = or_history base_history (get_history t.values t.memory_window st.session) in
      try_plans-Settles history (preloaded_of s t msg skill_names block st) true []
        (build_attempt_plans (length history)) st
