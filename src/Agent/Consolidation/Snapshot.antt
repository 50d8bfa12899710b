-- ===== src/Agent/Consolidation/Snapshot.antt =====
-- agent/looping/consolidation.py: `_build_recent_context_snapshot` and `refresh_recent_turns`.
use minicode_agent_runtime.Prelude.{
  ℕ, Bool, ◌-◌, if◌then◌else◌, List, [], ◌∷◌, Option, none, some, length, take, String,
}
use minicode_agent_runtime.Prelude.Codes.{Text, codes, blank, strip}
use minicode_agent_runtime.Session.{Session, SessionMessage}
use minicode_agent_runtime.Agent.Memory.{MemoryStore}
use minicode_agent_runtime.Agent.Memory.Files.{read_recent_context, write_recent_context}
use minicode_agent_runtime.Agent.Consolidation.{
  ConsolidationWindow, recent_turns, format_recent_context_messages,
  format_conversation_for_recent_context,
}
use minicode_agent_runtime.Agent.Consolidation.Context.{
  Compression, Patterns, cleaned, extract_recent_context_compression, render_recent_context,
  replace_recent_turns_block,
}

-- What the model's answer is: an exception, no dict, or a dict with the texts of its lists
pub data Answer (A : Type 0) : Type 0 where
  raised : Answer A
  no_dict : Answer A
  dict : A → Answer A

-- The first three items of each list of the answer
unfoldable pub compression_of : Compression → Compression
unfolding cleaned
compression_of c = record {
  active_topics = take 3 (cleaned c.active_topics);
  user_preferences = take 3 (cleaned c.user_preferences);
  follow_ups = take 3 (cleaned c.follow_ups);
  avoidances = take 3 (cleaned c.avoidances);
  ongoing_threads = take 3 (cleaned c.ongoing_threads);
}

-- `_message_time`
abbrev pub message_time : Option String → Text
message_time none = []
message_time (some t) = strip (codes t)

abbrev last_time : {Any : Type 0} → List (SessionMessage Any) → Text
last_time [] = []
last_time (m ∷ []) = message_time m.timestamp
last_time (m ∷ m' ∷ ms) = last_time (m' ∷ ms)

-- What the snapshot takes from outside: the model that compresses, its parser, and the texts.
pub record Compressor (Any : Type 0) : Type 0 where
  pub lower : Text → Text
  pub upper : Text → Text
  pub is_proactive : SessionMessage Any → Bool
  pub patterns : Patterns
  pub chat : (old_recent_context conversation recent_turns : Text) → Option Text
  pub parse : Text → Answer Compression

module _ {Any : Type 0} (io : Compressor Any) where
  abbrev fall_back : (old : Text) → Option Compression
  fall_back old = extract_recent_context_compression io.patterns old

  abbrev on_answer : (old : Text) → Answer Compression → Answer (Option Compression)
  on_answer old raised = raised
  on_answer old no_dict = dict (fall_back old)
  on_answer old (dict c) = dict (some (compression_of c))

  abbrev on_reply : (old : Text) → Option Text → Answer (Option Compression)
  on_reply old none = raised
  on_reply old (some reply) =
      if blank (strip reply) then dict (fall_back old) else on_answer old (io.parse (strip reply))

  -- The compression of a snapshot; `raised` for an exception
  unfoldable pub compress : (old conversation turns : Text) → Answer (Option Compression)
  unfolding compression_of extract_recent_context_compression
  compress old conversation turns =
      if blank conversation
      then (if blank (strip old) then dict none else dict (fall_back old))
      else on_reply old (io.chat old conversation turns)

  abbrev until_of : Option Text → Text
  until_of none = []
  until_of (some t) = strip t

  abbrev or_until : (compression_until old : Text) → Text
  or_until [] old = if blank (strip old) then [] else until_of (io.patterns.until_line old)
  or_until (c ∷ t) old = c ∷ t

  abbrev rendered : Answer (Option Compression) → (until turns : Text) → Option Text
  rendered raised until turns = none
  rendered no_dict until turns = none
  rendered (dict c) until turns = some (render_recent_context c until turns)

  -- `compact_source`; the window is there whenever a consolidation gets so far.
  unfoldable pub compact_source :
      (keep_count : ℕ) (archive_all : Bool)
      → ConsolidationWindow Any
      → Session Any
      → List (SessionMessage Any)
  compact_source keep_count archive_all window session =
      if archive_all
      then take (length session.messages - length (recent_turns keep_count session.messages))
          session.messages
      else window.old_messages

  -- `_build_recent_context_snapshot`; none for an exception
  unfoldable pub build_recent_context_snapshot :
      (keep_count : ℕ) (archive_all : Bool)
      → ConsolidationWindow Any
      → Session Any
      → (old_recent_context : Text) → Option Text
  unfolding compact_source compress render_recent_context
  build_recent_context_snapshot keep_count archive_all window session old =
      let source = compact_source keep_count archive_all window session in
      let turns = recent_turns keep_count session.messages in
      rendered
        (compress old
          (format_conversation_for_recent_context io.lower io.upper io.is_proactive source)
          (format_conversation_for_recent_context io.lower io.upper io.is_proactive turns))
        (or_until (last_time source) old)
        (format_recent_context_messages io.lower io.upper io.is_proactive turns)

  -- `refresh_recent_turns`
  unfoldable pub refresh_recent_turns : (keep_count : ℕ) → Session Any → MemoryStore → MemoryStore
  unfolding replace_recent_turns_block
  refresh_recent_turns keep_count session store =
      write_recent_context
        (replace_recent_turns_block (read_recent_context store) (
          format_recent_context_messages io.lower io.upper io.is_proactive
            (recent_turns keep_count session.messages)))
        store
