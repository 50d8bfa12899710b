-- ===== src/Agent/Memory/Once.antt =====
-- agent/memory.py: an append under a reference is made once, whatever is given again, and also
-- after a crash between the file and its index.
use minicode_agent_runtime.Prelude.{
  Bool, true, false, ◌≤◌, List, Option, none, some, ◌≡◌, refl, ◌||◌, Bool-cases, inl, inr, ap,
  arith,
}
use minicode_agent_runtime.Prelude.Codes.{Text, blank, strip, utf8_size}
use minicode_agent_runtime.Agent.Memory.{
  WriteRow, Append, write_to, write_added, find_row, put_row, block, consolidation_marker,
  tail_contains_marker, tail_limit, append_by, append_absent, append_once_with_index, MemoryStore,
  append_history_once,
}
use minicode_agent_runtime.Agent.Memory.Settled.{IsSettled-append, append_once-IsSettled}
use minicode_agent_runtime.Agent.Memory.Marks.{Wrote, tail_marked}
use minicode_agent_runtime.Agent.Memory.Marks.{row_of}

module _ (source_ref kind : Text) where
  absent_wrote :
      (file : Option Text) (rows : List WriteRow) (text : Text) (trailing : Bool)
      → (append_absent
          (consolidation_marker source_ref kind)
          file
          rows
          (row_of source_ref kind text trailing)).returned
        ≡ true
      → let out : Append =
          append_absent
            (consolidation_marker source_ref kind)
            file
            rows
            (row_of source_ref kind text trailing) in
        (out.added ≡ some (block (consolidation_marker source_ref kind) text trailing))
        × (out.rows ≡ put_row (row_of source_ref kind text trailing) rows)
  absent_wrote file rows text trailing h =
      elim (Bool-cases (tail_contains_marker file (consolidation_marker source_ref kind))) [
        | inl e ↦ (let f : false ≡ true = rw e at h in cc)
        | inr e ↦ rw e (refl, refl)
      ]

  pub append_once-Wrote :
      (file : Option Text) (text : Text) (trailing : Bool) (rows : List WriteRow)
      → (append_once_with_index file text source_ref kind trailing rows).returned ≡ true
      → Wrote source_ref kind file text trailing rows
          (append_once_with_index file text source_ref kind trailing rows)
  unfolding append_once_with_index
  append_once-Wrote file text trailing rows h =
      elim (Bool-cases (blank (strip source_ref) || blank (strip kind) || blank text)) [
        | inl e ↦ (let f : false ≡ true = rw e at h in cc)
        | inr e ↦ rw e (go (find_row (strip source_ref) (strip kind) rows) (rw e at h))
      ]
    where
      go :
          (found : Option WriteRow)
          → (append_by found
              (consolidation_marker source_ref kind)
              file
              rows
              (row_of source_ref kind text trailing)).returned
            ≡ true
          → let out : Append =
              append_by found
                (consolidation_marker source_ref kind)
                file
                rows
                (row_of source_ref kind text trailing) in
            (found ≡ none)
            × (false ≡ false)
            × (out.added ≡ some (block (consolidation_marker source_ref kind) text trailing))
            × (out.rows ≡ put_row (row_of source_ref kind text trailing) rows)
      go none k = let a = absent_wrote file rows text trailing k in (refl, refl, a.0, a.1)
      go (some r) k = cc

  crashed_at :
      (file : Option Text) (text : Text) (trailing : Bool) (rows : List WriteRow)
      → find_row (strip source_ref) (strip kind) rows ≡ none
      → (blank (strip source_ref) || blank (strip kind) || blank text) ≡ false
      → utf8_size (block (consolidation_marker source_ref kind) text trailing) ≤ tail_limit
      → append_once_with_index
          (write_to file (block (consolidation_marker source_ref kind) text trailing))
          text
          source_ref
          kind
          trailing
          rows
        ≡ record {
          returned = false;
          added = none;
          rows = put_row (row_of source_ref kind text trailing) rows;
        }
  unfolding append_once_with_index
  crashed_at file text trailing rows absent given small =
      rw given (rw absent (rw (tail_marked source_ref kind file text trailing small) refl))

  module _ (file : Option Text) (text : Text) (trailing : Bool) (rows : List WriteRow)
      (wrote : (append_once_with_index file text source_ref kind trailing rows).returned
        ≡ true) where
    abbrev first : Append
    first = append_once_with_index file text source_ref kind trailing rows

    -- After a crash between the file and the index, the same append adds the row alone.
    pub append_once-crashed :
        utf8_size (block (consolidation_marker source_ref kind) text trailing) ≤ tail_limit
        → append_once_with_index (write_added file first.added) text source_ref kind trailing rows
          ≡ record { returned = false; added = none; rows = first.rows }
    append_once-crashed small =
        let w = append_once-Wrote file text trailing rows wrote in
        rw (w.2, w.3) (crashed_at file text trailing rows w.0 w.1 small)

-- After an append under a reference, none under it changes anything, however the first ended.
pub append_history_once_again :
    (entry entry' source_ref kind : Text) (store : MemoryStore)
    → blank (strip entry) ≡ false
    → let done = (append_history_once entry source_ref kind store).1 in
      append_history_once entry' source_ref kind done ≡ (false, done)
unfolding append_history_once
append_history_once_again entry entry' source_ref kind store given =
    let done = (append_history_once entry source_ref kind store).1 in
    ap
      (λ (out : Append). (
        out.returned,
        record done { history_file = write_added done.history_file out.added; writes = out.rows },
      ))
      (IsSettled-append source_ref kind done.history_file done.writes (strip entry') true (
        append_once-IsSettled source_ref kind store.history_file (strip entry) true store.writes
          given))

-- After an append to HISTORY.md under a reference that wrote, with a block of at most the bytes
-- that the tail scan reads: the same append after a crash that lost the index row but kept the
-- file returns False, restores the row and leaves the file; and an append of any text under that
-- reference returns False and changes nothing.
pub append_history_once-crashed :
    (entry entry' source_ref kind : Text) (store : MemoryStore)
    → (append_history_once entry source_ref kind store).0 ≡ true
    → utf8_size (block (consolidation_marker source_ref kind) (strip entry) true) ≤ tail_limit
    → let done = (append_history_once entry source_ref kind store).1 in
      (append_history_once entry source_ref kind (record done { writes = store.writes })
        ≡ (false, done))
      × (append_history_once entry' source_ref kind done ≡ (false, done))
unfolding append_history_once
append_history_once-crashed entry entry' source_ref kind store wrote small =
    let done = (append_history_once entry source_ref kind store).1 in
    (
      ap
          (λ (out : Append). (
            out.returned,
            record done {
              history_file = write_added done.history_file out.added;
              writes = out.rows;
            },
          ))
          (append_once-crashed source_ref kind store.history_file (strip entry) true store.writes
            wrote small),
      append_history_once_again entry entry' source_ref kind store (
          let w =
            append_once-Wrote source_ref kind store.history_file (strip entry) true store.writes
              wrote in
          ground arith),
    )
