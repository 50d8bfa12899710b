-- ===== src/Agent/Memory/Pending.antt =====
-- agent/memory.py: the facts in PENDING.md and in its snapshot, as two buffers.
pub mod Return
use minicode_agent_runtime.Prelude.{
  false, List, [], ◌∷◌, ◌++◌, Option, none, some, ◌≡◌, refl, sym, ap, ◌∙◌, Bool-cases, inl, inr,
}
use minicode_agent_runtime.Prelude.Codes.{
  Text, blank, strip, ink-line, rstrip, read_text, ink, ink-append, ink-read_text,
  ink_of_blank-strip,
}
use minicode_agent_runtime.Agent.Memory.{
  MemoryStore, write_to, write_added, append_once_with_index, append_pending_once, read_file,
}
use minicode_agent_runtime.Agent.Memory.Files.{
  append_pending, snapshot_pending, commit_pending_snapshot, rollback_pending_snapshot, restart,
  merged, rollback_files, take_pending, touched,
}
use mathlib.Core.List.{append-nil}

-- The calls that write PENDING.md, but for `clear_pending`, which nothing calls
pub data PendingCall : Type 0 where
  append : (facts : Text) → PendingCall
  append_once : (facts source_ref kind : Text) → PendingCall
  snapshot : PendingCall
  commit : PendingCall
  rollback : PendingCall
  reopen : PendingCall

unfoldable pub perform : PendingCall → MemoryStore → MemoryStore
perform (append facts) store = append_pending facts store
perform (append_once facts source_ref kind) store =
    (append_pending_once facts source_ref kind store).1
perform snapshot store = (snapshot_pending store).1
perform commit store = commit_pending_snapshot store
perform rollback store = rollback_pending_snapshot store
perform reopen store = restart store

-- The abstract view: what was archived, what an optimizer has taken, and what waits, each as its
-- characters that are not white space.
pub record Ledger : Type 0 where
  pub archived : Text
  pub taken : Text
  pub waiting : Text

pub data Move : Type 0 where
  arrive : Text → Move
  take_all : Move
  archive : Move
  give_back : Move

abbrev pub apply_move : Move → Ledger → Ledger
apply_move (arrive t) l = record l { waiting = l.waiting ++ t }
apply_move take_all l = record l { taken = l.taken ++ l.waiting; waiting = [] }
apply_move archive l = record l { archived = l.archived ++ l.taken; taken = [] }
apply_move give_back l = record l { taken = []; waiting = l.taken ++ l.waiting }

abbrev pub ink_file : Option Text → Text
ink_file none = []
ink_file (some t) = ink t

-- The move that a call stands for; an append under a reference brings what it wrote.
abbrev pub move_of : PendingCall → MemoryStore → Move
move_of (append facts) store = arrive (ink facts)
move_of (append_once facts source_ref kind) store = arrive (
    ink_file
      (append_once_with_index store.pending_file (strip facts) source_ref kind false
        store.writes).added)
move_of snapshot store = take_all
move_of commit store = archive
move_of rollback store = give_back
move_of reopen store = give_back

-- The ledger of a store, after archived facts
abbrev pub ledger_of : (archived : Text) → MemoryStore → Ledger
ledger_of archived store = record {
  archived = archived;
  taken = ink_file store.snapshot_file;
  waiting = ink_file store.pending_file;
}

-- A run of calls on the files, and the same run on the ledger
unfoldable pub perform_all : List PendingCall → MemoryStore → MemoryStore
unfolding perform
perform_all [] store = store
perform_all (c ∷ cs) store = perform_all cs (perform c store)

unfoldable pub follow : List PendingCall → MemoryStore → Ledger → Ledger
unfolding perform
follow [] store ledger = ledger
follow (c ∷ cs) store ledger = follow cs (perform c store) (apply_move (move_of c store) ledger)

ink-write_to : (file : Option Text) (t : Text) → ink_file (write_to file t) ≡ ink_file file ++ ink t
ink-write_to none t = refl
ink-write_to (some s) t = ink-append s t

ink-write_added :
    (file added : Option Text) → ink_file (write_added file added) ≡ ink_file file ++ ink_file added
ink-write_added file none = sym (append-nil (ink_file file))
ink-write_added file (some t) = ink-write_to file t

ink-read_file : (file : Option Text) → ink (read_file file) ≡ ink_file file
unfolding ink
ink-read_file none = refl
ink-read_file (some t) = ink-read_text t

ink-touched : (file : Option Text) → ink_file (touched file) ≡ ink_file file
unfolding ink
ink-touched none = refl
ink-touched (some t) = refl

ink-merged : (s t : Text) → ink (merged s t) ≡ ink s ++ ink t
ink-merged s t = elim (Bool-cases (blank (strip t))) [
  | inl e ↦ rw (e, ink_of_blank-strip t e) (sym (append-nil (ink s)))
  | inr e ↦ rw e (ink-line s t)
]

-- The files after a rollback
ink-rollback :
    (archived : Text) (snapshot : Option Text) (store : MemoryStore)
    → store.snapshot_file ≡ snapshot
    → ledger_of archived (rollback_files snapshot store)
      ≡ apply_move give_back (ledger_of archived store)
ink-rollback archived none store e = rw e refl
ink-rollback archived (some snap) store e = rw e (
    ap (λ (t : Text). record { archived = archived; taken = []; waiting = t })
      (ink-merged (read_text snap) (read_file store.pending_file)
        ∙ rw (ink-read_text snap, ink-read_file store.pending_file) refl))

ledger-rollback :
    (archived : Text) (store : MemoryStore)
    → ledger_of archived (rollback_pending_snapshot store)
      ≡ apply_move give_back (ledger_of archived store)
unfolding rollback_pending_snapshot
ledger-rollback archived store = ink-rollback archived store.snapshot_file store refl

ledger-take :
    (archived : Text) (pending : Option Text) (store : MemoryStore)
    → store.snapshot_file ≡ none
    → store.pending_file ≡ pending
    → ledger_of archived (take_pending pending store).1
      ≡ record { archived = archived; taken = ink_file pending; waiting = [] }
unfolding ink
ledger-take archived none store s p = rw (s, p) refl
ledger-take archived (some []) store s p = rw (s, p) refl
ledger-take archived (some (c ∷ t)) store s p = refl

rollback_absent :
    (snapshot : Option Text) (store : MemoryStore)
    → store.snapshot_file ≡ snapshot
    → (rollback_files snapshot store).snapshot_file ≡ none
rollback_absent none store e = e
rollback_absent (some snap) store e = refl

ledger-snapshot :
    (archived : Text) (store : MemoryStore)
    → ledger_of archived (snapshot_pending store).1 ≡ apply_move take_all (ledger_of archived store)
unfolding snapshot_pending rollback_pending_snapshot
ledger-snapshot archived store =
    ledger-take archived (rollback_files store.snapshot_file store).pending_file
      (rollback_files store.snapshot_file store) (rollback_absent store.snapshot_file store refl)
      refl
    ∙ ap (λ (l : Ledger). record { archived = archived; taken = l.waiting; waiting = [] })
        (ink-rollback archived store.snapshot_file store refl)

-- One call is one move.
pub ledger-perform :
    (archived : Text) (c : PendingCall) (store : MemoryStore)
    → ledger_of (apply_move (move_of c store) (ledger_of archived store)).archived (perform c store)
      ≡ apply_move (move_of c store) (ledger_of archived store)
unfolding perform append_pending append_pending_once commit_pending_snapshot restart ink
ledger-perform archived (append facts) store = elim (Bool-cases (blank (strip facts))) [
  | inl e ↦ rw e (rw (ink_of_blank-strip facts e, append-nil (ink_file store.pending_file)) refl)
  | inr e ↦ rw e (
      ap (λ (t : Text). record (ledger_of archived store) { waiting = t })
        (ink-write_to store.pending_file (rstrip facts ++ 10 ∷ [])
          ∙ ap (λ (t : Text). ink_file store.pending_file ++ t)
              (ink-line facts [] ∙ append-nil (ink facts))))
]
ledger-perform archived (append_once facts source_ref kind) store =
    ap (λ (t : Text). record (ledger_of archived store) { waiting = t })
      (ink-write_added store.pending_file _)
ledger-perform archived snapshot store = ledger-snapshot archived store
ledger-perform archived commit store =
    ap
      (λ (t : Text). record {
        archived = archived ++ ink_file store.snapshot_file;
        taken = [];
        waiting = t;
      })
      (ink-touched store.pending_file)
ledger-perform archived rollback store = ledger-rollback archived store
ledger-perform archived reopen store =
    ledger-rollback archived (record store { pending_file = touched store.pending_file })
    ∙ rw (ink-touched store.pending_file) refl

-- Any run of appends, appends under a reference, snapshots, commits, rollbacks and restarts on the
-- files of pending facts is a run of the abstract buffers: appends only add behind what waits, a
-- snapshot takes all that waits behind what an unfinished one has taken, a commit archives what
-- was taken, and a rollback or a restart puts it back in front; no character but white space is
-- lost or moved.
pub perform_all-follow :
    (cs : List PendingCall) (archived : Text) (store : MemoryStore)
    → ledger_of (follow cs store (ledger_of archived store)).archived (perform_all cs store)
      ≡ follow cs store (ledger_of archived store)
unfolding perform_all follow
perform_all-follow [] archived store = refl
perform_all-follow (c ∷ cs) archived store = rw (ledger-perform archived c store) at (
    perform_all-follow cs (apply_move (move_of c store) (ledger_of archived store)).archived
      (perform c store))
