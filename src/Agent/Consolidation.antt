-- ===== src/Agent/Consolidation.antt =====
-- agent/looping/consolidation.py: the window of messages that a consolidation archives, and the
-- texts that are made of messages and of what the model answers.
pub mod Entries
pub mod Context
pub mod Snapshot
pub mod Ports
pub mod Service
pub mod Runtime
pub mod Tiling
use minicode_agent_runtime.Prelude.{
  ℕ, String, Bool, ◌-◌, ◌/◌, max, min, ltb, leb, if◌then◌else◌, List, [], ◌∷◌, ◌++◌, Option, none,
  some, ◌&&◌, ◌||◌, not, length, take, drop, truthy, str_eq,
}
use minicode_agent_runtime.Prelude.Codes.{Text, codes, blank, strip, join_lines, same_text}
use minicode_agent_runtime.Session.{Session, SessionMessage}

pub record ConsolidationWindow (Any : Type 0) : Type 0 where
  pub old_messages : List (SessionMessage Any)
  pub keep_count : ℕ
  pub consolidate_up_to : ℕ

-- The ids of `_build_consolidation_source_ref`
abbrev pub id_of : Option String → List String
id_of none = []
id_of (some id) = if truthy id then id ∷ [] else []

module _ {Any : Type 0} where
  -- `session.messages[session.last_consolidated : consolidate_up_to]`
  abbrev pub slice : ℕ → ℕ → List (SessionMessage Any) → List (SessionMessage Any)
  slice from to messages = drop from (take to messages)

  -- `_select_consolidation_window`
  unfoldable pub select_consolidation_window :
      (keep_count consolidation_min_new_messages : ℕ) (archive_all : Bool)
      → Session Any
      → Option (ConsolidationWindow Any)
  select_consolidation_window keep_count min_new archive_all session =
      let total = length session.messages in
      let up_to = total - keep_count in
      let old = slice session.last_consolidated up_to session.messages in
      if archive_all
      then some
          (record { old_messages = session.messages; keep_count = 0; consolidate_up_to = total })
      else (if leb total keep_count
          then none
          else (if leb total session.last_consolidated
              then none
              else (if ltb (length old) (max 1 min_new)
                  then none
                  else some (record {
                    old_messages = old;
                    keep_count = keep_count;
                    consolidate_up_to = up_to;
                  }))))

  unfoldable pub window_ids : List (SessionMessage Any) → List String
  window_ids [] = []
  window_ids (m ∷ ms) = id_of m.id ++ window_ids ms

-- `_recent_turn_count`
abbrev pub recent_turn_count : ℕ → ℕ
recent_turn_count keep_count = max 1 (keep_count / 2)

module _ {Any : Type 0} (lower upper : Text → Text) (is_proactive : SessionMessage Any → Bool) where
  abbrev timestamp_of : Option String → Text
  timestamp_of none = codes "?"
  timestamp_of (some t) = codes t

  -- `_format_conversation_for_consolidation`, without the join
  unfoldable pub consolidation_lines : List (SessionMessage Any) → List Text
  consolidation_lines [] = []
  consolidation_lines (m ∷ ms) =
      let rest = consolidation_lines ms in
      if not (truthy m.content)
        || str_eq m.role "tool"
        || (str_eq m.role "assistant" && is_proactive m)
      then rest
      else (codes "["
          ++ (take 16 (timestamp_of m.timestamp)
              ++ (codes "] " ++ (upper (codes m.role) ++ (codes ": " ++ codes m.content)))))
        ∷ rest

  unfoldable pub format_conversation_for_consolidation : List (SessionMessage Any) → Text
  unfolding consolidation_lines
  format_conversation_for_consolidation ms = join_lines (consolidation_lines ms)

  abbrev is_user : Text → Bool
  is_user role = same_text role (codes "user")

  abbrev is_assistant : Text → Bool
  is_assistant role = same_text role (codes "assistant")

  -- `_format_recent_context_messages`, without the join
  unfoldable pub recent_lines : List (SessionMessage Any) → List Text
  recent_lines [] = []
  recent_lines (m ∷ ms) =
      let rest = recent_lines ms in
      let content = strip (codes m.content) in
      let role = lower (codes m.role) in
      if blank content
        || not (is_user role || is_assistant role)
        || (is_assistant role && is_proactive m)
      then rest
      else (if is_assistant role
          then codes "[a-preview] " ++ take 60 content
          else codes "[user] " ++ content)
        ∷ rest

  unfoldable pub format_recent_context_messages : List (SessionMessage Any) → Text
  unfolding recent_lines
  format_recent_context_messages ms = strip (join_lines (recent_lines ms))

  -- `_format_conversation_for_recent_context`, without the join
  unfoldable pub conversation_lines : List (SessionMessage Any) → List Text
  conversation_lines [] = []
  conversation_lines (m ∷ ms) =
      let rest = conversation_lines ms in
      let content = strip (codes m.content) in
      let role = upper (codes m.role) in
      if blank content
        || not (same_text role (codes "USER") || same_text role (codes "ASSISTANT"))
        || (same_text role (codes "ASSISTANT") && is_proactive m)
      then rest
      else (role ++ (codes ": " ++ content)) ∷ rest

  unfoldable pub format_conversation_for_recent_context : List (SessionMessage Any) → Text
  unfolding conversation_lines
  format_conversation_for_recent_context ms = strip (join_lines (conversation_lines ms))

-- `messages[-n:]` for a positive n
abbrev pub last_items {ℓ} : {A : Type ℓ} → ℕ → List A → List A
last_items n xs = drop (length xs - n) xs

-- The turns that a recent context shows, of `_build_recent_context_snapshot`
unfoldable pub recent_turns {ℓ} : {A : Type ℓ} → (keep_count : ℕ) → List A → List A
recent_turns keep_count messages =
    let tail = if ltb 0 keep_count then last_items keep_count messages else [] in
    last_items (min (length tail) (recent_turn_count keep_count)) tail
