-- ===== src/Tests/Memories.antt =====
-- The files of the memory: samples and examples for agent/memory.py.
use minicode_agent_runtime.Prelude.{
  ◌≤◌, true, false, List, [], ◌∷◌, none, some, ◌≡◌, refl, arith, is_space,
}
use minicode_agent_runtime.Prelude.Codes.{
  Text, codes, blank, strip, rstrip, lstrip, within, last_bytes, utf8_size, read_text, split_lines,
  join_lines, ends,
}
use minicode_agent_runtime.Agent.Memory.{
  MemoryStore, append_history_once, append_pending_once, append_once_with_index,
  consolidation_marker, find_row, block, tail_limit, strip_consolidation_markers,
}
use minicode_agent_runtime.Agent.Memory.Files.{
  snapshot_pending, read_pending, commit_pending_snapshot,
}
use minicode_agent_runtime.Agent.Memory.Once.{append_history_once-crashed}
use minicode_agent_runtime.Agent.Memory.Pending.{
  PendingCall, append, append_once, snapshot, commit, reopen, perform_all, follow, ledger_of,
  perform_all-follow,
}
use minicode_agent_runtime.Agent.Memory.Pending.Return.{append_pending_once-commit}

abbrev new_store : MemoryStore
new_store = record {
  memory_file = none;
  history_file = none;
  recent_context_file = none;
  pending_file = some [];
  snapshot_file = none;
  self_file = none;
  now_file = none;
  writes = [];
}

abbrev likes_tea : Text
likes_tea = codes "- [preference] tea"

abbrev ref : Text
ref = codes "m1"

abbrev history_kind : Text
history_kind = codes "history_entry"

abbrev pending_kind : Text
pending_kind = codes "pending_items"

-- An append, and the same text again
history_once : (append_history_once likes_tea ref history_kind new_store).0 ≡ true
unfolding append_history_once append_once_with_index find_row strip rstrip lstrip is_space
history_once = refl

pending_once : (append_pending_once likes_tea ref pending_kind new_store).0 ≡ true
unfolding append_pending_once append_once_with_index find_row strip rstrip lstrip is_space
    last_bytes within utf8_size
pending_once = refl

-- What a reader sees of a file with a marker
pending_read : read_pending (append_pending_once likes_tea ref pending_kind new_store).1 ≡ likes_tea
unfolding append_pending_once append_once_with_index find_row strip rstrip lstrip is_space
    last_bytes within utf8_size block consolidation_marker read_pending read_text
    strip_consolidation_markers split_lines join_lines ends
pending_read = refl

tea_given : blank (strip likes_tea) ≡ false
unfolding strip rstrip lstrip is_space
tea_given = refl

tea_small :
    utf8_size (block (consolidation_marker ref history_kind) (strip likes_tea) true) ≤ tail_limit
unfolding block consolidation_marker strip rstrip lstrip is_space utf8_size
tea_small = omega arith

append_history_once-crashed_example :
    let done = (append_history_once likes_tea ref history_kind new_store).1 in
    (append_history_once likes_tea ref history_kind (record done { writes = [] }) ≡ (false, done))
    × (append_history_once (codes "other") ref history_kind done ≡ (false, done))
append_history_once-crashed_example =
    append_history_once-crashed likes_tea (codes "other") ref history_kind new_store history_once
      tea_small

abbrev day : List PendingCall
day =
    append_once likes_tea ref pending_kind
    ∷ snapshot
    ∷ append (codes "- [identity] here ")
    ∷ reopen
    ∷ snapshot
    ∷ commit
    ∷ []

perform_all-follow_example :
    ledger_of (follow day new_store (ledger_of [] new_store)).archived (perform_all day new_store)
    ≡ follow day new_store (ledger_of [] new_store)
perform_all-follow_example = perform_all-follow day [] new_store

append_pending_once-commit_example :
    let added = (append_pending_once likes_tea ref pending_kind new_store).1 in
    let archived = commit_pending_snapshot (snapshot_pending added).1 in
    (archived.pending_file ≡ some [])
    × ((append_pending_once likes_tea ref pending_kind archived).1.pending_file
        ≡ some (block (consolidation_marker ref pending_kind) (strip likes_tea) false))
append_pending_once-commit_example =
    append_pending_once-commit likes_tea likes_tea ref pending_kind new_store pending_once tea_given
