-- ===== src/Agent/Consolidation/Service/Retry.antt =====
-- agent/looping/consolidation.py: HISTORY.md when a window is consolidated again.
use minicode_agent_runtime.Prelude.{
  ℕ, Bool, true, false, ◌/◌, max, List, [], ◌∷◌, Option, none, some, ◌≡◌, ◌≢◌, ◌⊎◌, refl, ap, ◌∙◌,
  Bool-cases, inl, inr, arith, is_space,
}
use Prim.Native.String.{String}
use minicode_agent_runtime.Prelude.Codes.{
  Text, codes, blank, strip, rstrip, lstrip, join_lines, same_text,
}
use minicode_agent_runtime.Session.{Session}
use minicode_agent_runtime.Agent.Memory.{MemoryStore, append_history_once, append_pending_once}
use minicode_agent_runtime.Agent.Memory.Files.{write_recent_context}
use minicode_agent_runtime.Agent.Memory.Settled.{
  IsSettled, IsSettled-append, append_once-IsSettled, append_refused,
}
use minicode_agent_runtime.Agent.Memory.Others.{append_pending_once-IsSettled}
use minicode_agent_runtime.Agent.Consolidation.{
  ConsolidationWindow, select_consolidation_window, SessionMessage, window_ids,
}
use minicode_agent_runtime.Agent.Consolidation.Snapshot.{
  Answer, raised, no_dict, dict, build_recent_context_snapshot,
}
use minicode_agent_runtime.Agent.Consolidation.Service.{
  write_history, write_pending, commit, commit_implicit, finish_window, after_implicit, after_saves,
  on_payload, on_text, on_window, run_window, implicit_of, reply_of, consolidate,
  normalize_history_entries, read_recent_context, format_pending_items, summaries,
}
use minicode_agent_runtime.Agent.Consolidation.Ports.{
  Ports, Work, EventPayload, Implicit, source_ref_of, save_entries,
}

-- HISTORY.md and the index are those of other files.
abbrev Same : MemoryStore → MemoryStore → Type 0
Same files files' = (files'.history_file ≡ files.history_file) × (files'.writes ≡ files.writes)

-- Nothing was written there, or the two writes under a reference were made.
abbrev Written : Text → MemoryStore → MemoryStore → Type 0
Written ref files files' =
    Same files files'
    ⊎ ((entries : List Text) × (items : Text) × Same
          (write_pending ref items (write_history ref entries files)) files')

module _ {Any Vectors : Type 0} (io : Ports Any Vectors) (keep_count : ℕ) (archive_all : Bool)
    (session : Session Any) (window : ConsolidationWindow Any) where
  finish_window-Same :
      (text : Option Text) (work : Work Vectors)
      → Same work.files (finish_window io keep_count archive_all session window text work).2.files
  unfolding write_recent_context
  finish_window-Same none work = (refl, refl)
  finish_window-Same (some text) work = (refl, refl)

  after_implicit-Same :
      (out : Bool × Vectors) (files : MemoryStore)
      → Same files (after_implicit io keep_count archive_all session window out files).2.files
  after_implicit-Same (false, vectors) files = (refl, refl)
  after_implicit-Same (true, vectors) files =
      finish_window-Same
        (build_recent_context_snapshot io.compressor keep_count archive_all window session
          (read_recent_context files))
        (record { files = files; vectors = vectors })

  after_saves-Same :
      (ref : Text) (implicit : Option (Implicit Any)) (out : Bool × Vectors) (files : MemoryStore)
      → Same files
          (after_saves io keep_count archive_all session window ref implicit out files).2.files
  after_saves-Same ref implicit (false, vectors) files = (refl, refl)
  after_saves-Same ref implicit (true, vectors) files =
      after_implicit-Same (commit_implicit io session ref implicit vectors) files

  on_payload-Written :
      (implicit : Option (Implicit Any)) (answer : Answer EventPayload) (work : Work Vectors)
      → Written
          (source_ref_of io window.old_messages)
          work.files
          (on_payload io keep_count archive_all session window implicit answer work).2.files
  unfolding commit
  on_payload-Written implicit raised work = inl (refl, refl)
  on_payload-Written implicit no_dict work = inl (refl, refl)
  on_payload-Written implicit (dict payload) work =
      let ref = source_ref_of io window.old_messages in
      let entries = normalize_history_entries payload.history_entries payload.history_entry in
      let items = format_pending_items io.compressor.lower payload.pending_items in
      inr (
        summaries entries,
        items,
        after_saves-Same ref implicit (save_entries io session ref entries work.vectors)
            (write_pending ref items (write_history ref (summaries entries) work.files)),
      )

  on_text-Written :
      (implicit : Option (Implicit Any)) (text : Option Text) (work : Work Vectors)
      → Written
          (source_ref_of io window.old_messages)
          work.files
          (on_text io keep_count archive_all session window implicit text work).2.files
  on_text-Written implicit none work = inl (refl, refl)
  on_text-Written implicit (some text) work = elim (Bool-cases (blank (strip text))) [
    | inl e ↦ rw e (inl (refl, refl))
    | inr e ↦ rw e (on_payload-Written implicit (io.parse (strip text)) work)
  ]

  run_window-Written :
      (work : Work Vectors)
      → Written
          (source_ref_of io window.old_messages)
          work.files
          (run_window io keep_count archive_all session window work).2.files
  unfolding run_window
  run_window-Written work =
      on_text-Written (implicit_of io window work.files) (reply_of io window work.files) work

kinds_differ : same_text (strip (codes "pending_items")) (strip (codes "history_entry")) ≡ false
unfolding strip rstrip lstrip is_space
kinds_differ = refl

abbrev Settled : Text → MemoryStore → Type 0
Settled ref files = IsSettled ref (codes "history_entry") files.history_file files.writes

write_pending_unchanged :
    (ref items : Text) (files : MemoryStore)
    → (write_pending ref items files).history_file ≡ files.history_file
unfolding append_pending_once
write_pending_unchanged ref [] files = refl
write_pending_unchanged ref (c ∷ t) files = refl

write_pending-Settled :
    (ref items : Text) (files : MemoryStore)
    → Settled ref files
    → Settled ref (write_pending ref items files)
write_pending-Settled ref [] files s = s
write_pending-Settled ref (c ∷ t) files s =
    append_pending_once-IsSettled ref (codes "history_entry") (c ∷ t) ref (codes "pending_items")
      files kinds_differ s

-- A settled reference: HISTORY.md stays.
write_history_unchanged :
    (ref : Text) (entries : List Text) (files : MemoryStore)
    → Settled ref files
    → (write_history ref entries files).history_file ≡ files.history_file
unfolding append_history_once
write_history_unchanged ref [] files s = refl
write_history_unchanged ref (e ∷ es) files s =
    rw
      (IsSettled-append ref (codes "history_entry") files.history_file files.writes
        (strip (join_lines (e ∷ es))) true s)
      refl

-- A write of entries settles the reference, or leaves HISTORY.md.
write_history-Settled :
    (ref : Text) (entries : List Text) (files : MemoryStore)
    → ((write_history ref entries files).history_file ≡ files.history_file)
      ⊎ Settled ref (write_history ref entries files)
unfolding append_history_once
write_history-Settled ref [] files = inl refl
write_history-Settled ref (e ∷ es) files = elim (Bool-cases (blank (strip (join_lines (e ∷ es))))) [
  | inl b ↦ inl (
      rw
        (append_refused ref (codes "history_entry") files.history_file (strip (join_lines (e ∷ es)))
          true files.writes (ground (arith, b)))
        refl)
  | inr b ↦ inr (
      append_once-IsSettled ref (codes "history_entry") files.history_file
        (strip (join_lines (e ∷ es))) true files.writes b)
]

Written-Settled :
    (ref : Text) (files files' : MemoryStore)
    → Written ref files files'
    → files'.history_file ≢ files.history_file
    → Settled ref files'
Written-Settled ref files files' (inl same) changed = absurd (changed same.0)
Written-Settled ref files files' (inr (entries, items, same)) changed =
    elim (write_history-Settled ref entries files) [
      | inl e ↦ absurd (
          changed
            (same.0 ∙ write_pending_unchanged ref items (write_history ref entries files) ∙ e))
      | inr s ↦
          rw (same.0, same.1) (write_pending-Settled ref items (write_history ref entries files) s)
    ]

Written-unchanged :
    (ref : Text) (files files' : MemoryStore)
    → Written ref files files'
    → Settled ref files
    → files'.history_file ≡ files.history_file
Written-unchanged ref files files' (inl same) s = same.0
Written-unchanged ref files files' (inr (entries, items, same)) s =
    same.0
    ∙ write_pending_unchanged ref items (write_history ref entries files)
    ∙ write_history_unchanged ref entries files s

module _ {Any Vectors : Type 0} (io io' : Ports Any Vectors) (keep_count : ℕ) (archive_all : Bool)
    (session : Session Any) where
  source_ref_same :
      (old : List (SessionMessage Any))
      → io.dump ≡ io'.dump
      → source_ref_of io old ≡ source_ref_of io' old
  unfolding source_ref_of
  source_ref_same old same = ap (λ (d : List String → Text). d (window_ids old)) same

  on_window-again :
      (selected : Option (ConsolidationWindow Any)) (work work' : Work Vectors)
      → io.dump ≡ io'.dump
      → let first = on_window io keep_count archive_all session selected work in
        first.2.files.history_file ≢ work.files.history_file
        → work'.files ≡ first.2.files
        → (on_window io' keep_count archive_all session selected work').2.files.history_file
          ≡ first.2.files.history_file
  on_window-again none work work' same changed next = absurd (changed refl)
  on_window-again (some window) work work' same changed next =
      let ref = source_ref_of io window.old_messages in
      let first = run_window io keep_count archive_all session window work in
      let second = run_window io' keep_count archive_all session window work' in
      let settled =
        Written-Settled ref work.files first.2.files
          (run_window-Written io keep_count archive_all session window work) changed in
      Written-unchanged ref work'.files second.2.files
        (rw (source_ref_same window.old_messages same)
          (run_window-Written io' keep_count archive_all session window work'))
        (rw next settled)
      ∙ ap (λ (f : MemoryStore). f.history_file) next

  -- If a consolidation of a session changes HISTORY.md, then another consolidation of the same
  -- window, on the files that the first left and with any other answers of the models, leaves
  -- HISTORY.md as the first left it, however the two end.
  pub consolidate-again :
      (work work' : Work Vectors)
      → io.dump ≡ io'.dump
      → (consolidate io keep_count archive_all session work).2.files.history_file
        ≢ work.files.history_file
      → work'.files ≡ (consolidate io keep_count archive_all session work).2.files
      → (consolidate io' keep_count archive_all session work').2.files.history_file
        ≡ (consolidate io keep_count archive_all session work).2.files.history_file
  unfolding consolidate
  consolidate-again work work' same changed next =
      on_window-again
        (select_consolidation_window keep_count (max 5 (keep_count / 2)) archive_all session) work
        work' same changed next
