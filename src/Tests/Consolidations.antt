-- ===== src/Tests/Consolidations.antt =====
-- Consolidations: samples and examples for agent/looping/consolidation.py and ports.py.
use Prim.Native.String.{String}
use minicode_agent_runtime.Prelude.{
  ℕ, Bool, sym, ap, ◌∙◌, true, false, List, [], ◌∷◌, Option, none, some, ◌≡◌, ◌≢◌, refl, arith,
  is_space, All, contains, inl,
}
use minicode_agent_runtime.Prelude.Codes.{Text, codes, strip, rstrip, lstrip, join_lines}
use minicode_agent_runtime.Session.{Session, SessionMessage}
use minicode_agent_runtime.Agent.Memory.{
  MemoryStore, append_history_once, append_once_with_index, find_row,
}
use minicode_agent_runtime.Agent.Memory.Files.{read_recent_context, write_recent_context}
use minicode_agent_runtime.Agent.Consolidation.{format_conversation_for_recent_context}
use minicode_agent_runtime.Agent.Consolidation.Snapshot.{no_dict, dict}
use minicode_agent_runtime.Agent.Consolidation.Entries.{
  RawItem, plain, entry, other_item, RawEntries, listed, pos, normalize_history_entries,
  normalize_items, candidates_of, read_item, coerce_emotional_weight, summaries,
  format_pending_items,
}
use minicode_agent_runtime.Agent.Consolidation.Entries.Admitted.{
  Fresh, IsEntry, IsCovered, normalize_history_entries-Fresh,
}
use minicode_agent_runtime.Agent.Consolidation.Service.{consolidate}
use minicode_agent_runtime.Agent.Consolidation.Ports.{Ports, Work}
use minicode_agent_runtime.Agent.Consolidation.Service.Retry.{consolidate-again}
use minicode_agent_runtime.Agent.Consolidation.Tiling.{
  Event, post, attempt, Progress, IsTiled, happen_all, happen_all-IsTiled,
}
use minicode_agent_runtime.Agent.Consolidation.Runtime.{
  mark_manual_start, Runtime, Others, trigger_memory_consolidation,
}
use minicode_agent_runtime.Agent.Consolidation.Runtime.Released.{
  trigger_from, trigger_memory_consolidation_free,
}
use minicode_agent_runtime.Session.Store.{Json, empty_store}
use minicode_agent_runtime.Session.Manager.{get_or_create}
use minicode_agent_runtime.Agent.Consolidation.Runtime.Exclusive.{
  Locks, manual, here, next, unlocked, IsExclusive, Reach-IsExclusive, begun,
}

-- Three items of which two are entries; weights off the scale are brought onto it.
abbrev answered : RawEntries
answered = listed (
    plain (codes " tea ")
    ∷ entry (codes "tea") (some (pos 4))
    ∷ entry (codes "cake") (some (pos 40))
    ∷ other_item
    ∷ [])

two_entries : normalize_history_entries answered none ≡ (codes "tea", 0) ∷ (codes "cake", 10) ∷ []
unfolding normalize_history_entries normalize_items candidates_of read_item coerce_emotional_weight
    strip rstrip lstrip is_space
two_entries = refl

normalize_history_entries-Fresh_example :
    let es = normalize_history_entries answered none in
    Fresh [] (summaries es)
    × All IsEntry es
    × All (λ (i : RawItem). IsCovered [] es (read_item i)) (candidates_of answered none)
normalize_history_entries-Fresh_example = normalize_history_entries-Fresh answered none

abbrev said : String → SessionMessage String
said id = record {
  id = some id;
  seq = none;
  role = "user";
  content = "hi";
  timestamp = none;
  tool_chain = none;
  extra = [];
}

abbrev six : List (SessionMessage String)
six = said "1" ∷ said "2" ∷ said "3" ∷ said "4" ∷ said "5" ∷ said "6" ∷ []

abbrev talk : Session String
talk = record {
  key = "cli:1";
  messages = six;
  created_at = "t";
  updated_at = "t";
  metadata = [];
  last_consolidated = 0;
}

abbrev fresh_files : MemoryStore
fresh_files = record {
  memory_file = none;
  history_file = none;
  recent_context_file = none;
  pending_file = some [];
  snapshot_file = none;
  self_file = none;
  now_file = none;
  writes = [];
}

abbrev fresh_work : Work ℕ
fresh_work = record { files = fresh_files; vectors = 0 }

-- A model that answers with the given entries, and a vector store that counts its saves
abbrev answering : RawEntries → Ports String ℕ
answering entries = record {
  compressor = record {
    lower = λ t. t;
    upper = λ t. t;
    is_proactive = λ m. false;
    patterns = record {
      compression_body = λ t. none;
      ongoing_body = λ t. none;
      until_line = λ t. none;
    };
    chat = λ old conversation turns. none;
    parse = λ t. no_dict;
  };
  dump = λ ids. codes "[m]";
  digest = λ t. t;
  split_entries = λ t. t ∷ [];
  event_chat = λ memory recent conversation. some (codes "x");
  parse =
      λ t. dict (record { history_entries = entries; history_entry = none; pending_items = none });
  implicit_chat = λ conversation existing. none;
  parse_implicit = λ t. no_dict;
  save_from_consolidation = λ session e ref weight v. (true, v);
  save_item_with_supersede = λ session type summary fields ref weight v. (true, v);
}

abbrev idle_start : Progress String
idle_start = record { session = record talk { messages = [] }; archived = [] }

abbrev afternoon : List (Event String ℕ)
afternoon = post six ∷ attempt (answering answered) fresh_work ∷ post six ∷ []

happen_all-IsTiled_example : IsTiled 1 (happen_all 1 afternoon idle_start)
happen_all-IsTiled_example =
    happen_all-IsTiled 1 afternoon idle_start (record { tiled = refl; below = omega arith })

abbrev is_there : Option Text → Bool
is_there none = false
is_there (some t) = true

history_there :
    is_there (consolidate (answering answered) 1 false talk fresh_work).2.files.history_file ≡ true
unfolding consolidate append_history_once append_once_with_index find_row normalize_history_entries
    normalize_items candidates_of read_item strip rstrip lstrip is_space join_lines
    format_conversation_for_recent_context read_recent_context format_pending_items
    write_recent_context
history_there = refl

history_written :
    (consolidate (answering answered) 1 false talk fresh_work).2.files.history_file ≢ none
history_written e = let f : true ≡ false = sym history_there ∙ ap is_there e in cc

consolidate-again_example :
    let first = consolidate (answering answered) 1 false talk fresh_work in
    (consolidate
      (answering (listed (plain (codes "coffee") ∷ [])))
      1
      false
      talk
      (record { files = first.2.files; vectors = 7 })).2.files.history_file
    ≡ first.2.files.history_file
consolidate-again_example =
    consolidate-again (answering answered) (answering (listed (plain (codes "coffee") ∷ []))) 1
      false talk fresh_work
      (record {
        files = (consolidate (answering answered) 1 false talk fresh_work).2.files;
        vectors = 7;
      })
      refl history_written refl

abbrev both_run : Locks
both_run =
    begun "b" (mark_manual_start "b" (begun "a" (mark_manual_start "a" []) unlocked).consolidating)
      (begun "a" (mark_manual_start "a" []) unlocked)

Reach-IsExclusive_example : IsExclusive both_run
Reach-IsExclusive_example = Reach-IsExclusive {Any = String} {keep_count = 4} (
    next (next here (manual "a" unlocked))
      (manual "b" (begun "a" (mark_manual_start "a" []) unlocked)))

abbrev flat_json : Json String
flat_json = record {
  dump = λ d. "{}";
  load = λ t. [];
  dump_chain = λ c. "[]";
  load_chain = λ t. [];
  decimal = λ n. "0";
}

abbrev held : Runtime String ℕ
held = record {
  manager = record { store = empty_store; cache = ("cli:1", talk) ∷ [] };
  consolidating = "cli:1" ∷ "cli:2" ∷ [];
  work = fresh_work;
}

abbrev freed : Runtime String ℕ
freed = record held { consolidating = "cli:2" ∷ [] }

-- While the manual consolidation runs, a turn schedules that of another session.
abbrev busy_others : Others String ℕ
busy_others = record {
  during_runner = λ session rt. (session, record rt { consolidating = "cli:3" ∷ rt.consolidating });
  during_lock = λ session rt. (session, rt);
}

trigger_memory_consolidation_free_example :
    let io = answering answered in
    let polls : List (Bool × Runtime String ℕ) = (false, freed) ∷ [] in
    contains
      (trigger_memory_consolidation flat_json io busy_others 1 "cli:1" false "t" polls
        held).1.consolidating
      "cli:1"
    ≡ contains
        (trigger_from flat_json io 1 busy_others "cli:1" false "t" "cli:1"
          (inl refl)
          polls
          (get_or_create flat_json "cli:1" "t" held.manager)
          held).consolidating
        "cli:1"
trigger_memory_consolidation_free_example =
    trigger_memory_consolidation_free flat_json (answering answered) 1 busy_others "cli:1" false "t"
      "cli:1" (inl refl) ((false, freed) ∷ []) held
