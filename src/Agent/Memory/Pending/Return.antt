-- ===== src/Agent/Memory/Pending/Return.antt =====
-- agent/memory.py: facts that come back to PENDING.md after they were archived.
use minicode_agent_runtime.Prelude.{
  true, false, [], ◌∷◌, none, some, ◌≡◌, refl, List, Option, ap, ◌∙◌, ◌||◌, arith,
}
use minicode_agent_runtime.Prelude.Codes.{Text, strip, blank, within}
use minicode_agent_runtime.Agent.Memory.{
  MemoryStore, block, consolidation_marker, append_pending_once, append_once_with_index, WriteRow,
  write_added, find_row,
}
use minicode_agent_runtime.Agent.Memory.Files.{
  snapshot_pending, rollback_pending_snapshot, commit_pending_snapshot, rollback_files, touched,
  take_pending,
}
use minicode_agent_runtime.Agent.Memory.Once.{append_once-Wrote}
use minicode_agent_runtime.Agent.Memory.Marks.{marker_nonblank, find-put_row}
use minicode_agent_runtime.Agent.Memory.Marks.{row_of}

touched-take :
    (pending : Option Text) (store : MemoryStore)
    → store.pending_file ≡ pending
    → touched (take_pending pending store).1.pending_file ≡ some []
touched-take none store e = rw e refl
touched-take (some []) store e = rw e refl
touched-take (some (c ∷ t)) store e = refl

-- A committed snapshot leaves an empty PENDING.md.
commit-snapshot : (store : MemoryStore) → touched (snapshot_pending store).1.pending_file ≡ some []
unfolding snapshot_pending
commit-snapshot store = touched-take _ (rollback_pending_snapshot store) refl

writes-take :
    (pending : Option Text) (store : MemoryStore)
    → (take_pending pending store).1.writes ≡ store.writes
writes-take none store = refl
writes-take (some []) store = refl
writes-take (some (c ∷ t)) store = refl

writes-rollback :
    (snapshot : Option Text) (store : MemoryStore)
    → (rollback_files snapshot store).writes ≡ store.writes
writes-rollback none store = refl
writes-rollback (some t) store = refl

writes-snapshot : (store : MemoryStore) → (snapshot_pending store).1.writes ≡ store.writes
unfolding snapshot_pending rollback_pending_snapshot
writes-snapshot store =
    writes-take _ (rollback_files store.snapshot_file store)
    ∙ writes-rollback store.snapshot_file store

-- With the row and an empty file, the payload of the row is written again.
append_once_empty :
    (text source_ref kind : Text) (row : WriteRow) (rows : List WriteRow)
    → find_row (strip source_ref) (strip kind) rows ≡ some row
    → blank row.payload ≡ false
    → (blank (strip source_ref) || blank (strip kind) || blank text) ≡ false
    → (append_once_with_index (some []) text source_ref kind false rows).added
      ≡ some (block (consolidation_marker source_ref kind) row.payload row.trailing_blank_line)
unfolding append_once_with_index within
append_once_empty text source_ref kind row rows found payload given =
    rw given (rw found (rw (marker_nonblank source_ref kind) (rw payload refl)))

-- If facts are appended to PENDING.md under a reference, and a snapshot of them is then committed,
-- so that PENDING.md is empty, a further append under that reference, of any text but white space,
-- writes the archived facts to PENDING.md again.
pub append_pending_once-commit :
    (facts facts' source_ref kind : Text) (store : MemoryStore)
    → (append_pending_once facts source_ref kind store).0 ≡ true
    → blank (strip facts') ≡ false
    → let added = (append_pending_once facts source_ref kind store).1 in
      let archived = commit_pending_snapshot (snapshot_pending added).1 in
      (archived.pending_file ≡ some [])
      × ((append_pending_once facts' source_ref kind archived).1.pending_file
          ≡ some (block (consolidation_marker source_ref kind) (strip facts) false))
unfolding append_pending_once commit_pending_snapshot
append_pending_once-commit facts facts' source_ref kind store wrote fresh =
    let w =
      append_once-Wrote source_ref kind store.pending_file (strip facts) false store.writes wrote in
    let row : WriteRow = row_of source_ref kind (strip facts) false in
    let added = (append_pending_once facts source_ref kind store).1 in
    (
      commit-snapshot added,
      rw (commit-snapshot added) (
          ap (write_added (some [])) (
            append_once_empty (strip facts') source_ref kind row (snapshot_pending added).1.writes
              (rw (writes-snapshot added) (rw (w.3) (find-put_row row store.writes))) (ground arith)
              (ground arith))),
    )
