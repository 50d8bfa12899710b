-- ===== src/Agent/Memory.antt =====
-- agent/memory.py: `MemoryStore`, the files under memory/ and the index of consolidation writes.
-- A file is none while it does not exist; a change by another process, and an error of the file
-- system or of the database, are not modelled.
pub mod Files
pub mod Marks
pub mod Settled
pub mod Others
pub mod Once
pub mod Pending
use minicode_agent_runtime.Prelude.{
  ℕ, Bool, true, false, ◌*◌, if◌then◌else◌, List, [], ◌∷◌, ◌++◌, Option, none, some, ◌&&◌, ◌||◌,
  not, keep, ◌==◌, map,
}
use minicode_agent_runtime.Prelude.Codes.{
  Text, codes, blank, same_text, starts, ends, within, rstrip, strip, split_lines, join_lines,
  read_text, last_bytes,
}

-- A row of `consolidation_writes`; the column `done_at` is left out.
pub record WriteRow : Type 0 where
  pub source_ref : Text
  pub kind : Text
  pub payload : Text
  pub trailing_blank_line : Bool

pub record MemoryStore : Type 0 where
  pub memory_file : Option Text
  pub history_file : Option Text
  pub recent_context_file : Option Text
  pub pending_file : Option Text
  pub snapshot_file : Option Text
  pub self_file : Option Text
  pub now_file : Option Text
  pub writes : List WriteRow

-- `path.read_text()` if the file exists, else `""`
abbrev pub read_file : Option Text → Text
read_file none = []
read_file (some t) = read_text t

-- `open(path, "a")` and the writes, as one
abbrev pub write_to : Option Text → Text → Option Text
write_to none t = some t
write_to (some s) t = some (s ++ t)

abbrev pub marker_prefix : Text
marker_prefix = codes "<!-- consolidation:"

abbrev pub marker_suffix : Text
marker_suffix = codes " -->"

abbrev pub tail_limit : ℕ
tail_limit = 1024 * 1024

-- `s.replace("\n", " ")`
abbrev one_line : Text → Text
one_line s = map (λ (c : ℕ). if c == 10 then 32 else c) s

-- `_consolidation_marker`
unfoldable pub consolidation_marker : (source_ref kind : Text) → Text
consolidation_marker source_ref kind =
    marker_prefix
    ++ (strip (one_line source_ref) ++ (codes ":" ++ (strip (one_line kind) ++ marker_suffix)))

abbrev pub is_marker_line : Text → Bool
is_marker_line line = starts marker_prefix line && ends marker_suffix line

-- `_strip_consolidation_markers`
unfoldable pub strip_consolidation_markers : Text → Text
strip_consolidation_markers text =
    strip (join_lines (keep (λ (l : Text). not (is_marker_line l)) (split_lines text)))

-- `_file_contains_marker`
abbrev pub file_contains_marker : Option Text → Text → Bool
file_contains_marker none marker = false
file_contains_marker (some t) marker = not (blank marker) && within marker t

-- `_tail_contains_marker`
abbrev pub tail_contains_marker : Option Text → Text → Bool
tail_contains_marker none marker = false
tail_contains_marker (some t) marker =
    let tail = last_bytes tail_limit t in not (blank t) && within marker tail

abbrev pub has_key : (source_ref kind : Text) → WriteRow → Bool
has_key source_ref kind row = same_text row.source_ref source_ref && same_text row.kind kind

-- The SELECT
unfoldable pub find_row : (source_ref kind : Text) → List WriteRow → Option WriteRow
find_row source_ref kind [] = none
find_row source_ref kind (row ∷ rows) =
    if has_key source_ref kind row then some row else find_row source_ref kind rows

-- INSERT OR REPLACE
unfoldable pub put_row : WriteRow → List WriteRow → List WriteRow
put_row row rows = keep (λ (r : WriteRow). not (has_key row.source_ref row.kind r)) rows ++ row ∷ []

-- What the writes of a payload with its marker append
unfoldable pub block : (marker payload : Text) → (trailing : Bool) → Text
block marker payload trailing =
    marker ++ 10 ∷ (rstrip payload ++ 10 ∷ (if trailing then 10 ∷ [] else []))

-- What `_append_once_with_index` returns, what it appends to the file, and the rows after it
pub record Append : Type 0 where
  pub returned : Bool
  pub added : Option Text
  pub rows : List WriteRow

abbrev pub append_found : (marker : Text) → Option Text → List WriteRow → WriteRow → Append
append_found marker file rows row = record {
  returned = false;
  added =
      if not (file_contains_marker file marker) && not (blank row.payload)
      then some (block marker row.payload row.trailing_blank_line)
      else none;
  rows = rows;
}

abbrev pub append_absent : (marker : Text) → Option Text → List WriteRow → WriteRow → Append
append_absent marker file rows row =
    if tail_contains_marker file marker
    then record { returned = false; added = none; rows = put_row row rows }
    else record {
      returned = true;
      added = some (block marker row.payload row.trailing_blank_line);
      rows = put_row row rows;
    }

abbrev pub append_by :
    Option WriteRow → (marker : Text) → Option Text → List WriteRow → WriteRow → Append
append_by none marker file rows row = append_absent marker file rows row
append_by (some found) marker file rows row = append_found marker file rows found

-- `_append_once_with_index`
unfoldable pub append_once_with_index :
    Option Text → (text source_ref kind : Text) → (trailing : Bool) → List WriteRow → Append
append_once_with_index file text source_ref kind trailing rows =
    let src = strip source_ref in
    let kd = strip kind in
    if blank src || blank kd || blank text
    then record { returned = false; added = none; rows = rows }
    else append_by (find_row src kd rows) (consolidation_marker source_ref kind) file rows
        (record { source_ref = src; kind = kd; payload = text; trailing_blank_line = trailing })

abbrev pub write_added : Option Text → Option Text → Option Text
write_added file none = file
write_added file (some t) = write_to file t

-- `append_history_once`
unfoldable pub append_history_once :
    (entry source_ref kind : Text) → MemoryStore → Bool × MemoryStore
append_history_once entry source_ref kind store =
    let out : Append =
      append_once_with_index store.history_file (strip entry) source_ref kind true store.writes in
    (
      out.returned,
      record store { history_file = write_added store.history_file out.added; writes = out.rows },
    )

-- `append_pending_once`
unfoldable pub append_pending_once :
    (facts source_ref kind : Text) → MemoryStore → Bool × MemoryStore
append_pending_once facts source_ref kind store =
    let out : Append =
      append_once_with_index store.pending_file (strip facts) source_ref kind false store.writes in
    (
      out.returned,
      record store { pending_file = write_added store.pending_file out.added; writes = out.rows },
    )
