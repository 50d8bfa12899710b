-- ===== src/Agent/Memory/Files.antt =====
-- agent/memory.py: the plain reads and writes of the files, and the snapshot of PENDING.md.
use minicode_agent_runtime.Prelude.{
  ℕ, ◌-◌, ltb, if◌then◌else◌, [], ◌∷◌, ◌++◌, Option, none, some, ◌&&◌, not, length, drop,
}
use minicode_agent_runtime.Prelude.Codes.{Text, codes, blank, rstrip, strip, read_text}
use minicode_agent_runtime.Agent.Memory.{
  MemoryStore, strip_consolidation_markers, write_to, read_file,
}

-- `append_history`
unfoldable pub append_history : (entry : Text) → MemoryStore → MemoryStore
append_history entry store = record store {
  history_file = write_to store.history_file (rstrip entry ++ 10 ∷ 10 ∷ []);
}

-- `append_pending`
unfoldable pub append_pending : (facts : Text) → MemoryStore → MemoryStore
append_pending facts store =
    if blank (strip facts)
    then store
    else record store { pending_file = write_to store.pending_file (rstrip facts ++ 10 ∷ []) }

-- `read_history`
unfoldable pub read_history : (max_chars : ℕ) → MemoryStore → Text
read_history max_chars store =
    let text = strip_consolidation_markers (read_file store.history_file) in
    if ltb 0 max_chars && ltb max_chars (length text)
    then drop (length text - max_chars) text
    else text

-- `read_pending`
unfoldable pub read_pending : MemoryStore → Text
read_pending store = strip_consolidation_markers (read_file store.pending_file)

-- `clear_pending`
unfoldable pub clear_pending : MemoryStore → MemoryStore
clear_pending store = record store { pending_file = some [] }

-- `rollback_pending_snapshot` on the two files
abbrev pub merged : (snap_text new_text : Text) → Text
merged snap_text new_text =
    if not (blank (strip new_text)) then rstrip snap_text ++ 10 ∷ new_text else snap_text

abbrev pub rollback_files : Option Text → MemoryStore → MemoryStore
rollback_files none store = store
rollback_files (some snap) store = record store {
  pending_file = some (merged (read_text snap) (read_file store.pending_file));
  snapshot_file = none;
}

-- `rollback_pending_snapshot`, and `_recover_pending_snapshot`, which calls it if there is a snapshot
unfoldable pub rollback_pending_snapshot : MemoryStore → MemoryStore
rollback_pending_snapshot store = rollback_files store.snapshot_file store

abbrev pub take_pending : Option Text → MemoryStore → Text × MemoryStore
take_pending none store = ([], store)
take_pending (some []) store = ([], store)
take_pending (some (c ∷ t)) store = (
  strip_consolidation_markers (read_text (c ∷ t)),
  record store { pending_file = none; snapshot_file = some (c ∷ t) },
)

-- `snapshot_pending`
unfoldable pub snapshot_pending : MemoryStore → Text × MemoryStore
unfolding rollback_pending_snapshot
snapshot_pending store =
    let recovered = rollback_pending_snapshot store in take_pending recovered.pending_file recovered

-- `if not self.pending_file.exists(): self.pending_file.touch()`
abbrev pub touched : Option Text → Option Text
touched none = some []
touched (some t) = some t

-- `commit_pending_snapshot`
unfoldable pub commit_pending_snapshot : MemoryStore → MemoryStore
commit_pending_snapshot store = record store {
  snapshot_file = none;
  pending_file = touched store.pending_file;
}

-- The constructor on a folder that has files already: a restart
unfoldable pub restart : MemoryStore → MemoryStore
unfolding rollback_pending_snapshot
restart store =
    rollback_pending_snapshot (record store { pending_file = touched store.pending_file })

-- `write_long_term`, `write_recent_context`, `write_self`, `write_now` and their readers
unfoldable pub write_long_term : Text → MemoryStore → MemoryStore
write_long_term content store = record store { memory_file = some content }

unfoldable pub read_long_term : MemoryStore → Text
read_long_term store = read_file store.memory_file

unfoldable pub write_recent_context : Text → MemoryStore → MemoryStore
write_recent_context content store = record store { recent_context_file = some content }

unfoldable pub read_recent_context : MemoryStore → Text
read_recent_context store = read_file store.recent_context_file

unfoldable pub write_self : Text → MemoryStore → MemoryStore
write_self content store = record store { self_file = some content }

unfoldable pub read_self : MemoryStore → Text
read_self store = read_file store.self_file

unfoldable pub write_now : Text → MemoryStore → MemoryStore
write_now content store = record store { now_file = some content }

unfoldable pub read_now : MemoryStore → Text
read_now store = read_file store.now_file

-- `get_memory_context`
unfoldable pub get_memory_context : MemoryStore → Text
unfolding read_long_term
get_memory_context store =
    let long_term = read_long_term store in
    if blank long_term then [] else codes "## Long-term Memory" ++ 10 ∷ long_term
