-- ===== src/Agent/Consolidation/Service.antt =====
-- agent/looping/consolidation.py: `ConsolidationService.consolidate`, over the files of the memory
-- and a vector store. The calls of models, the parsers and the memory port are parameters.
pub mod Mark
pub mod Retry
use minicode_agent_runtime.Prelude.{
  ℕ, Bool, true, false, ◌/◌, max, if◌then◌else◌, List, [], ◌∷◌, ◌++◌, Option, none, some, ◌&&◌,
  ◌||◌, not, map, any, ◌==◌,
}
use minicode_agent_runtime.Prelude.Codes.{Text, codes, blank, strip, join_lines, starts, within}
use minicode_agent_runtime.Session.{Session}
use minicode_agent_runtime.Agent.Memory.{MemoryStore, append_history_once, append_pending_once}
use minicode_agent_runtime.Agent.Memory.Files.{
  read_history, read_long_term, read_recent_context, write_recent_context,
}
use minicode_agent_runtime.Agent.Consolidation.{
  ConsolidationWindow, select_consolidation_window, format_conversation_for_consolidation,
}
use minicode_agent_runtime.Agent.Consolidation.Entries.{
  normalize_history_entries, format_pending_items, summaries,
}
use minicode_agent_runtime.Agent.Consolidation.Snapshot.{
  Answer, raised, no_dict, dict, build_recent_context_snapshot,
}
use minicode_agent_runtime.Agent.Consolidation.Ports.{
  Ended, EventPayload, Implicit, Ports, RawFact, Work, bad_summary, done, fact, failed, no_fact,
  no_window, save_entries, save_implicit_long_term, select_recent_history_entries, source_ref_of,
  unanswered,
}

-- `text.split("\n", 1)[-1]`
abbrev after_line : Text → (whole : Text) → Text
after_line [] whole = whole
after_line (c ∷ t) whole = let rest = after_line t whole in if c == 10 then t else rest

-- `text.rsplit(marker, 1)[0]`
unfoldable pub before_last : (marker : Text) → Text → Text
unfolding within
before_last marker [] = []
before_last marker (c ∷ t) =
    let rest = before_last marker t in
    if starts marker (c ∷ t) && not (within marker t) then [] else c ∷ rest

abbrev unfenced : Text → Text
unfenced text =
    if starts (codes "```") text
    then strip (before_last (codes "```") (after_line text text))
    else text

abbrev dict_or_none : {A : Type 0} → Answer A → Option A
dict_or_none raised = none
dict_or_none no_dict = none
dict_or_none (dict a) = some a

-- The texts that go to HISTORY.md and PENDING.md
abbrev pub write_history : (source_ref : Text) → List Text → MemoryStore → MemoryStore
write_history ref [] files = files
write_history ref (e ∷ es) files =
    (append_history_once (join_lines (e ∷ es)) ref (codes "history_entry") files).1

abbrev pub write_pending : (source_ref items : Text) → MemoryStore → MemoryStore
write_pending ref [] files = files
write_pending ref (c ∷ t) files = (append_pending_once (c ∷ t) ref (codes "pending_items") files).1

module _ {Any Vectors : Type 0} (io : Ports Any Vectors) where
  abbrev extracted : Option Text → Option (Implicit Any)
  extracted none = none
  extracted (some text) = dict_or_none (io.parse_implicit (unfenced (strip text)))

  -- `_extract_implicit_long_term`
  unfoldable pub extract_implicit_long_term :
      (conversation existing_profile : Text) → Option (Implicit Any)
  unfolding before_last
  extract_implicit_long_term conversation existing =
      extracted (io.implicit_chat conversation existing)

  abbrev is_bad : RawFact Any → Bool
  is_bad (fact summary weight fields) = false
  is_bad bad_summary = true
  is_bad no_fact = false

  -- The lists of the summaries for the log, which may raise, and the saves
  abbrev pub commit_implicit :
      Session Any → (source_ref : Text) → Option (Implicit Any) → Vectors → Bool × Vectors
  commit_implicit session ref none vectors = (true, vectors)
  commit_implicit session ref (some facts) vectors =
      if any is_bad facts.profiles || any is_bad facts.preferences || any is_bad facts.procedures
      then (false, vectors)
      else save_implicit_long_term io session ref facts vectors

  abbrev conversation_of : ConsolidationWindow Any → Text
  conversation_of window =
      format_conversation_for_consolidation io.compressor.lower io.compressor.upper
        io.compressor.is_proactive window.old_messages

  abbrev pub implicit_of : ConsolidationWindow Any → MemoryStore → Option (Implicit Any)
  implicit_of window files =
      extract_implicit_long_term (conversation_of window) (read_long_term files)

  -- The main model's reply, to a prompt with the last three entries of HISTORY.md
  abbrev pub reply_of : ConsolidationWindow Any → MemoryStore → Option Text
  reply_of window files =
      io.event_chat (read_long_term files)
        (join_lines (
          map (λ (e : Text). codes "- " ++ e)
            (select_recent_history_entries io.split_entries 3 (read_history 16000 files))))
        (conversation_of window)

  module _ (keep_count : ℕ) (archive_all : Bool) (session : Session Any) where
    -- Step 7, after the snapshot was made
    abbrev pub finish_window :
        ConsolidationWindow Any
        → Option Text
        → Work Vectors
        → Ended Any × Session Any × Work Vectors
    finish_window window none work = (failed, session, work)
    finish_window window (some text) work = (
      done window,
      record session { last_consolidated = if archive_all then 0 else window.consolidate_up_to },
      record work { files = write_recent_context text work.files },
    )

    abbrev pub after_implicit :
        ConsolidationWindow Any
        → Bool × Vectors
        → MemoryStore
        → Ended Any × Session Any × Work Vectors
    after_implicit window (false, vectors) files =
        (failed, session, record { files = files; vectors = vectors })
    after_implicit window (true, vectors) files =
        finish_window window
          (build_recent_context_snapshot io.compressor keep_count archive_all window session
            (read_recent_context files))
          (record { files = files; vectors = vectors })

    abbrev pub after_saves :
        ConsolidationWindow Any
        → (source_ref : Text) → Option (Implicit Any)
        → Bool × Vectors
        → MemoryStore
        → Ended Any × Session Any × Work Vectors
    after_saves window ref implicit (false, vectors) files =
        (failed, session, record { files = files; vectors = vectors })
    after_saves window ref implicit (true, vectors) files =
        after_implicit window (commit_implicit session ref implicit vectors) files

    -- Steps 4 to 7, on a dict
    unfoldable pub commit :
        ConsolidationWindow Any
        → Option (Implicit Any)
        → EventPayload
        → Work Vectors
        → Ended Any × Session Any × Work Vectors
    unfolding source_ref_of save_entries build_recent_context_snapshot save_implicit_long_term
    commit window implicit payload work =
        let ref = source_ref_of io window.old_messages in
        let entries = normalize_history_entries payload.history_entries payload.history_entry in
        let files = write_history ref (summaries entries) work.files in
        let files' =
          write_pending ref (format_pending_items io.compressor.lower payload.pending_items)
            files in
        after_saves window ref implicit (save_entries io session ref entries work.vectors) files'

    abbrev on_payload :
        ConsolidationWindow Any
        → Option (Implicit Any)
        → Answer EventPayload
        → Work Vectors
        → Ended Any × Session Any × Work Vectors
    on_payload window implicit raised work = (failed, session, work)
    on_payload window implicit no_dict work = (unanswered, session, work)
    on_payload window implicit (dict payload) work = commit window implicit payload work

    abbrev on_text :
        ConsolidationWindow Any
        → Option (Implicit Any)
        → Option Text
        → Work Vectors
        → Ended Any × Session Any × Work Vectors
    on_text window implicit none work = (failed, session, work)
    on_text window implicit (some text) work =
        if blank (strip text)
        then (unanswered, session, work)
        else on_payload window implicit (io.parse (strip text)) work

    -- Steps 2 and 3
    unfoldable pub run_window :
        ConsolidationWindow Any → Work Vectors → Ended Any × Session Any × Work Vectors
    unfolding commit extract_implicit_long_term select_recent_history_entries
    run_window window work =
        on_text window (implicit_of window work.files) (reply_of window work.files) work

  abbrev on_window :
      (keep_count : ℕ) (archive_all : Bool)
      → Session Any
      → Option (ConsolidationWindow Any)
      → Work Vectors
      → Ended Any × Session Any × Work Vectors
  on_window keep_count archive_all session none work = (no_window, session, work)
  on_window keep_count archive_all session (some window) work =
      run_window keep_count archive_all session window work

  -- `consolidate`: how it ends, with the session and the stores as they are then
  unfoldable pub consolidate :
      (keep_count : ℕ) (archive_all : Bool)
      → Session Any
      → Work Vectors
      → Ended Any × Session Any × Work Vectors
  unfolding run_window select_consolidation_window
  consolidate keep_count archive_all session work =
      on_window keep_count archive_all session
        (select_consolidation_window keep_count (max 5 (keep_count / 2)) archive_all session) work
