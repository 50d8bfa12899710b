-- ===== src/Agent/Memory/Settled.antt =====
-- agent/memory.py: a reference under which nothing more is appended to a file.
use minicode_agent_runtime.Prelude.{
  Bool, true, false, List, Option, none, some, ◌≡◌, refl, ◌||◌, not, Bool-cases, inl, inr, arith,
  ◌&&◌, ◌⊎◌,
}
use minicode_agent_runtime.Prelude.Codes.{Text, blank, strip}
use minicode_agent_runtime.Agent.Memory.{
  WriteRow, Append, write_added, find_row, consolidation_marker, file_contains_marker,
  tail_contains_marker, append_by, append_absent, append_once_with_index, append_found,
}
use minicode_agent_runtime.Agent.Memory.Marks.{find-put_row, contains_of_tail}
use minicode_agent_runtime.Agent.Memory.Marks.{row_of}
use minicode_agent_runtime.Agent.Memory.Marks.{block_marked}

module _ (source_ref kind : Text) where
  pub append_refused :
      (file : Option Text) (text : Text) (trailing : Bool) (rows : List WriteRow)
      → (blank (strip source_ref) || blank (strip kind) || blank text) ≡ true
      → append_once_with_index file text source_ref kind trailing rows
        ≡ record { returned = false; added = none; rows = rows }
  unfolding append_once_with_index
  append_refused file text trailing rows e = rw e refl

  pub append_run :
      (file : Option Text) (text : Text) (trailing : Bool) (rows : List WriteRow)
      → (blank (strip source_ref) || blank (strip kind) || blank text) ≡ false
      → append_once_with_index file text source_ref kind trailing rows
        ≡ append_by
            (find_row (strip source_ref) (strip kind) rows)
            (consolidation_marker source_ref kind)
            file
            rows
            (row_of source_ref kind text trailing)
  unfolding append_once_with_index
  append_run file text trailing rows e = rw e refl

  -- The key is empty, or its row is there and needs no repair of the file.
  abbrev pub IsSettled : Option Text → List WriteRow → Type 0
  IsSettled file rows =
      ((blank (strip source_ref) || blank (strip kind)) ≡ true)
      ⊎ ((row : WriteRow) × (find_row (strip source_ref) (strip kind) rows ≡ some row)
          × ((not (file_contains_marker file (consolidation_marker source_ref kind))
                && not (blank row.payload))
              ≡ false))

  -- Then an append, of any text, appends nothing.
  pub IsSettled-append :
      (file : Option Text) (rows : List WriteRow) (text : Text) (trailing : Bool)
      → IsSettled file rows
      → append_once_with_index file text source_ref kind trailing rows
        ≡ record { returned = false; added = none; rows = rows }
  IsSettled-append file rows text trailing (inl e) =
      append_refused file text trailing rows (ground (arith, e))
  IsSettled-append file rows text trailing (inr (row, found, kept)) =
      elim (Bool-cases (blank (strip source_ref) || blank (strip kind) || blank text)) [
        | inl e ↦ append_refused file text trailing rows e
        | inr e ↦ rw (append_run file text trailing rows e) (rw found (rw kept refl))
      ]

  found-IsSettled :
      (file : Option Text) (rows : List WriteRow) (row : WriteRow)
      → find_row (strip source_ref) (strip kind) rows ≡ some row
      → let out : Append = append_found (consolidation_marker source_ref kind) file rows row in
        IsSettled (write_added file out.added) rows
  found-IsSettled file rows row found =
      elim (Bool-cases (
        not (file_contains_marker file (consolidation_marker source_ref kind))
        && not (blank row.payload))) [
          | inl e ↦ rw e (
              inr (
                row,
                found,
                rw (block_marked source_ref kind file row.payload row.trailing_blank_line) refl,
              ))
          | inr e ↦ rw e (inr (row, found, e))
        ]

  absent-IsSettled :
      (file : Option Text) (rows : List WriteRow) (text : Text) (trailing : Bool)
      → let out : Append =
          append_absent
            (consolidation_marker source_ref kind)
            file
            rows
            (row_of source_ref kind text trailing) in
        IsSettled (write_added file out.added) out.rows
  absent-IsSettled file rows text trailing =
      let row : WriteRow = row_of source_ref kind text trailing in
      elim (Bool-cases (tail_contains_marker file (consolidation_marker source_ref kind))) [
        | inl e ↦
            rw e
              (inr (row, find-put_row row rows, rw (contains_of_tail source_ref kind file e) refl))
        | inr e ↦ rw e (
            inr (
              row,
              find-put_row row rows,
              rw (block_marked source_ref kind file text trailing) refl,
            ))
      ]

  append_by-IsSettled :
      (found : Option WriteRow) (file : Option Text) (rows : List WriteRow) (text : Text)
      (trailing : Bool)
      → find_row (strip source_ref) (strip kind) rows ≡ found
      → let out : Append =
          append_by found
            (consolidation_marker source_ref kind)
            file
            rows
            (row_of source_ref kind text trailing) in
        IsSettled (write_added file out.added) out.rows
  append_by-IsSettled none file rows text trailing e = absent-IsSettled file rows text trailing
  append_by-IsSettled (some row) file rows text trailing e = found-IsSettled file rows row e

  -- An append of a text settles its reference, however it ends.
  pub append_once-IsSettled :
      (file : Option Text) (text : Text) (trailing : Bool) (rows : List WriteRow)
      → blank text ≡ false
      → let out : Append = append_once_with_index file text source_ref kind trailing rows in
        IsSettled (write_added file out.added) out.rows
  append_once-IsSettled file text trailing rows given =
      elim (Bool-cases (blank (strip source_ref) || blank (strip kind))) [
        | inl e ↦ inl e
        | inr e ↦ rw (append_run file text trailing rows (ground (arith, e))) (
            append_by-IsSettled (find_row (strip source_ref) (strip kind) rows) file rows text
              trailing refl)
      ]
