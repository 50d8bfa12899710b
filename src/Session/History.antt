-- ===== src/Session/History.antt =====
-- session/manager.py: `get_history`, the messages of a session as the model's provider reads them.
pub mod Answered
use Prim.Native.String.{◌++◌ as str_append}
use minicode_agent_runtime.Prelude.{
  ℕ, String, Bool, false, ◌+◌, ◌-◌, leb, ltb, if◌then◌else◌, List, [], ◌∷◌, ◌++◌, Option, none,
  some, str_eq, truthy, strip, length, drop, keep, not, ◌&&◌, get_elem?,
}
use minicode_agent_runtime.Prelude.Dict.{Dict, get}
use minicode_agent_runtime.Agent.Reasoner.{
  Message, given, assistant_calls, tool_result, assistant, Group, CallRecord, join_by,
}
use minicode_agent_runtime.Agent.Reasoner.Finish.{invocations_of}
use minicode_agent_runtime.Session.{SessionMessage, Session}

-- `_RECENT_TOOL_ROUNDS`
abbrev pub recent_tool_rounds : ℕ
recent_tool_rounds = 1

-- `_CLEARED`
abbrev pub cleared : String
cleared = "[已清除]"

-- What the code asks of a value: its truth, `str(v or "")`, the elements if it is a list, the
-- entries if it is a dict, the paths `v or []` of media; the message of a user with a text, and
-- one with a text and paths, `_rebuild_user_content`, which reads the files.
pub record Values (Any : Type 0) : Type 0 where
  pub is_true : Any → Bool
  pub text : Any → String
  pub items : Any → Option (List Any)
  pub entries : Any → Option (Dict Any)
  pub paths : Any → List String
  pub user_text : String → Any
  pub user_media : String → List String → Any

-- `messages[-n:]` for n > 0, and [] for n = 0
abbrev pub last_messages {ℓ} : {A : Type ℓ} → ℕ → List A → List A
last_messages n xs = drop (length xs - n) xs

-- The texts that are not empty
abbrev pub non_empty : List String → List String
non_empty ts = keep truthy ts

module _ {Any : Type 0} (v : Values Any) where
  -- `str(d.get(k, "") or "")`
  text_at : Dict Any → String → String
  text_at d k = elim (get d k) [ none ↦ "" | some a ↦ v.text a ]

  source_line : Option (Dict Any) → List String
  source_line none = []
  source_line (some raw) =
      str_append "- " (
        join_by " | " (
          non_empty (
            strip (text_at raw "source_name")
            ∷ strip (text_at raw "title")
            ∷ strip (text_at raw "url")
            ∷ [])))
      ∷ []

  -- `source_refs` if it is a list with an element: the first one counts.
  source_lines : Option (List Any) → List String
  source_lines none = []
  source_lines (some []) = []
  source_lines (some (raw ∷ raws)) = "sources:" ∷ source_line (v.entries raw)

  tag_lines : String → List String
  tag_lines tag =
      if truthy tag && not (str_eq tag "none") then str_append "state_summary_tag=" tag ∷ [] else []

  meta_lines : Dict Any → List String
  meta_lines extra =
      tag_lines (strip (text_at extra "state_summary_tag"))
      ++ source_lines (elim (get extra "source_refs") [ none ↦ none | some a ↦ v.items a ])

  with_lines : String → List String → String
  with_lines content [] = content
  with_lines content (l ∷ ls) =
      str_append content (str_append "\n\n[proactive_meta]\n" (join_by "\n" (l ∷ ls)))

  is_proactive : Dict Any → Bool
  is_proactive extra = elim (get extra "proactive") [ none ↦ false | some a ↦ v.is_true a ]

  -- `_append_proactive_meta`
  unfoldable pub append_proactive_meta : String → Dict Any → String
  unfolding text_at source_line source_lines tag_lines meta_lines with_lines is_proactive
  append_proactive_meta content extra =
      if is_proactive extra then with_lines content (meta_lines extra) else content

  -- The results of a group; those of an older round are replaced.
  results_of : Bool → List (CallRecord Any) → List (Message Any)
  results_of is_recent [] = []
  results_of is_recent (c ∷ cs) =
      tool_result c.call_id (if is_recent then c.result else cleared) ∷ results_of is_recent cs

  group_messages : Bool → Group Any → List (CallRecord Any) → List (Message Any)
  group_messages is_recent g [] = []
  group_messages is_recent g (c ∷ cs) =
      assistant_calls g.text (invocations_of (c ∷ cs)) ∷ results_of is_recent (c ∷ cs)

  chain_messages : Bool → List (Group Any) → List (Message Any)
  chain_messages is_recent [] = []
  chain_messages is_recent (g ∷ gs) =
      group_messages is_recent g g.calls ++ chain_messages is_recent gs

  abbrev or_groups : Option (List (Group Any)) → List (Group Any)
  or_groups none = []
  or_groups (some gs) = gs

  user_content : String → List String → Any
  user_content text [] = v.user_text text
  user_content text (p ∷ ps) = v.user_media text (p ∷ ps)

  media_paths : Dict Any → List String
  media_paths extra = elim (get extra "media") [ none ↦ [] | some a ↦ v.paths a ]

  -- What becomes of one message
  unfoldable pub expand_message : Bool → SessionMessage Any → List (Message Any)
  unfolding append_proactive_meta results_of group_messages chain_messages user_content media_paths
  expand_message is_recent m =
      if str_eq m.role "user"
      then given (user_content m.content (media_paths m.extra)) ∷ []
      else if str_eq m.role "assistant"
      then chain_messages is_recent (or_groups m.tool_chain)
        ++ assistant
            (some (if truthy m.content then append_proactive_meta m.content m.extra else m.content))
          ∷ []
      else []

  -- The places of the assistant's messages, from place `i`
  assistant_indices : ℕ → List (SessionMessage Any) → List ℕ
  assistant_indices i [] = []
  assistant_indices i (m ∷ ms) =
      let rest = assistant_indices (i + 1) ms in
      if str_eq m.role "assistant" then i ∷ rest else rest

  -- `assistant_indices[-rounds]` if there are more, or 0
  recent_boundary : List ℕ → ℕ
  recent_boundary is =
      if ltb recent_tool_rounds (length is)
      then elim (get_elem? is (length is - recent_tool_rounds)) [ none ↦ 0 | some i ↦ i ]
      else 0

  expand_from : ℕ → ℕ → List (SessionMessage Any) → List (Message Any)
  expand_from boundary i [] = []
  expand_from boundary i (m ∷ ms) =
      expand_message (leb boundary i) m ++ expand_from boundary (i + 1) ms

  -- `get_history`
  unfoldable pub get_history : ℕ → Session Any → List (Message Any)
  unfolding assistant_indices recent_boundary expand_from
  get_history max_messages session =
      let messages = last_messages max_messages session.messages in
      expand_from (recent_boundary (assistant_indices 0 messages)) 0 messages
