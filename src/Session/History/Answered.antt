-- ===== src/Session/History/Answered.antt =====
-- session/manager.py: in a history every tool call has its result.
use minicode_agent_runtime.Prelude.{
  ℕ, Bool, ◌+◌, leb, List, [], ◌∷◌, ◌++◌, ◌≡◌, refl, ◌∙◌, some, str_eq, eq_refl, Bool-cases, inl,
  inr,
}
use minicode_agent_runtime.Agent.Reasoner.{Message, Group, CallRecord}
use minicode_agent_runtime.Agent.Reasoner.Finish.{invocations_of}
use minicode_agent_runtime.Agent.Reasoner.Protocol.{ids, waiting, waiting-snoc, AllAnswered}
use minicode_agent_runtime.Session.{SessionMessage, Session}
use minicode_agent_runtime.Session.History.{
  Values, results_of, group_messages, chain_messages, expand_message, expand_from, get_history,
  or_groups, last_messages, recent_boundary, assistant_indices,
}

module _ {Any : Type 0} (v : Values Any) where
  results_of-waiting :
      (is_recent : Bool) (cs : List (CallRecord Any))
      → waiting (ids (invocations_of cs)) (results_of v is_recent cs) ≡ some []
  unfolding results_of invocations_of
  results_of-waiting is_recent [] = refl
  results_of-waiting is_recent (c ∷ cs) = rw (eq_refl c.call_id) (results_of-waiting is_recent cs)

  group_messages-AllAnswered :
      (is_recent : Bool) (g : Group Any) (cs : List (CallRecord Any))
      → AllAnswered (group_messages v is_recent g cs)
  unfolding group_messages
  group_messages-AllAnswered is_recent g [] = refl
  group_messages-AllAnswered is_recent g (c ∷ cs) = results_of-waiting is_recent (c ∷ cs)

  append_all-AllAnswered :
      (xs ys : List (Message Any)) → AllAnswered xs → AllAnswered ys → AllAnswered (xs ++ ys)
  append_all-AllAnswered xs ys hx hy = waiting-snoc [] [] xs ys hx ∙ hy

  chain_messages-AllAnswered :
      (is_recent : Bool) (gs : List (Group Any)) → AllAnswered (chain_messages v is_recent gs)
  unfolding chain_messages
  chain_messages-AllAnswered is_recent [] = refl
  chain_messages-AllAnswered is_recent (g ∷ gs) =
      append_all-AllAnswered (group_messages v is_recent g g.calls) (chain_messages v is_recent gs)
        (group_messages-AllAnswered is_recent g g.calls) (chain_messages-AllAnswered is_recent gs)

  expand_message-AllAnswered :
      (is_recent : Bool) (m : SessionMessage Any) → AllAnswered (expand_message v is_recent m)
  unfolding expand_message
  expand_message-AllAnswered is_recent m = elim (Bool-cases (str_eq m.role "user")) [
    | inl e ↦ rw e refl
    | inr e ↦ rw e (elim (Bool-cases (str_eq m.role "assistant")) [
      | inl e' ↦ rw e' (
          append_all-AllAnswered (chain_messages v is_recent (or_groups v m.tool_chain)) _
            (chain_messages-AllAnswered is_recent (or_groups v m.tool_chain)) refl)
      | inr e' ↦ rw e' refl
    ])
  ]

  expand_from-AllAnswered :
      (boundary i : ℕ) (ms : List (SessionMessage Any)) → AllAnswered (expand_from v boundary i ms)
  unfolding expand_from
  expand_from-AllAnswered boundary i [] = refl
  expand_from-AllAnswered boundary i (m ∷ ms) =
      append_all-AllAnswered (expand_message v (leb boundary i) m)
        (expand_from v boundary (i + 1) ms) (expand_message-AllAnswered (leb boundary i) m)
        (expand_from-AllAnswered boundary (i + 1) ms)

  -- In the history of every session, however many messages it may have, each call of a tool is
  -- followed by its result, in the order of the calls and before any message but a file's
  -- contents.
  pub get_history-AllAnswered :
      (max_messages : ℕ) (session : Session Any) → AllAnswered (get_history v max_messages session)
  unfolding get_history
  get_history-AllAnswered max_messages session =
      let messages = last_messages max_messages session.messages in
      expand_from-AllAnswered (recent_boundary v (assistant_indices v 0 messages)) 0 messages
