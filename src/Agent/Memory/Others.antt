-- ===== src/Agent/Memory/Others.antt =====
-- agent/memory.py: an append under another kind leaves a reference settled.
use minicode_agent_runtime.Prelude.{
  Bool, true, false, List, [], ◌∷◌, Option, none, some, ◌≡◌, refl, ◌||◌, Bool-cases, inl, inr,
  arith, ◌∙◌,
}
use minicode_agent_runtime.Prelude.Codes.{Text, blank, strip, same_text, eq_of_same_text}
use minicode_agent_runtime.Agent.Memory.{
  MemoryStore, WriteRow, has_key, find_row, put_row, append_by, append_once_with_index,
  append_pending_once, consolidation_marker, tail_contains_marker,
}
use minicode_agent_runtime.Agent.Memory.Marks.{row_of}
use minicode_agent_runtime.Agent.Memory.Settled.{IsSettled, append_refused, append_run}

module _ (src kd : Text) where
  key_of_other :
      (row r : WriteRow)
      → same_text row.kind kd ≡ false
      → has_key row.source_ref row.kind r ≡ true
      → has_key src kd r ≡ false
  key_of_other row r other e =
      let same : r.kind ≡ row.kind = eq_of_same_text r.kind row.kind (ground (arith, e)) in
      rw same (ground (arith, other))

  -- A row of another kind is not found, and hides none.
  find-put_row_other :
      (row : WriteRow) (rows : List WriteRow)
      → same_text row.kind kd ≡ false
      → find_row src kd (put_row row rows) ≡ find_row src kd rows
  unfolding find_row put_row
  find-put_row_other row [] other = ground (arith, other)
  find-put_row_other row (r ∷ rows) other = elim (Bool-cases (has_key row.source_ref row.kind r)) [
    | inl e ↦ rw e (rw (key_of_other row r other e) (find-put_row_other row rows other))
    | inr e ↦ rw e (ground (arith, find-put_row_other row rows other))
  ]

  module _ (source_ref kind : Text) (other : same_text (strip kind) kd ≡ false) where
    find-append_by :
        (found : Option WriteRow) (file : Option Text) (text : Text) (trailing : Bool)
        (rows : List WriteRow)
        → find_row src kd
            (append_by found
              (consolidation_marker source_ref kind)
              file
              rows
              (row_of source_ref kind text trailing)).rows
          ≡ find_row src kd rows
    find-append_by (some row) file text trailing rows = refl
    find-append_by none file text trailing rows =
        elim (Bool-cases (tail_contains_marker file (consolidation_marker source_ref kind))) [
          | inl e ↦ rw e (find-put_row_other (row_of source_ref kind text trailing) rows other)
          | inr e ↦ rw e (find-put_row_other (row_of source_ref kind text trailing) rows other)
        ]

    pub find-append_other :
        (file : Option Text) (text : Text) (trailing : Bool) (rows : List WriteRow)
        → find_row src kd (append_once_with_index file text source_ref kind trailing rows).rows
          ≡ find_row src kd rows
    find-append_other file text trailing rows =
        elim (Bool-cases (blank (strip source_ref) || blank (strip kind) || blank text)) [
          | inl e ↦ rw (append_refused source_ref kind file text trailing rows e) refl
          | inr e ↦ rw (append_run source_ref kind file text trailing rows e) (
              find-append_by (find_row (strip source_ref) (strip kind) rows) file text trailing
                rows)
        ]

-- An append to PENDING.md under another kind keeps a reference of HISTORY.md settled.
pub append_pending_once-IsSettled :
    (source_ref kind facts ref' kind' : Text) (store : MemoryStore)
    → same_text (strip kind') (strip kind) ≡ false
    → IsSettled source_ref kind store.history_file store.writes
    → let done = (append_pending_once facts ref' kind' store).1 in
      IsSettled source_ref kind done.history_file done.writes
unfolding append_pending_once
append_pending_once-IsSettled source_ref kind facts ref' kind' store other (inl e) = inl e
append_pending_once-IsSettled source_ref kind facts ref' kind' store other
      (inr (row, found, kept)) =
    inr (
      row,
      find-append_other (strip source_ref) (strip kind) ref' kind' other store.pending_file
            (strip facts) false store.writes
          ∙ found,
      kept,
    )
