-- ===== src/Agent/Memory/Marks.antt =====
-- agent/memory.py: the marker of a reference in a file, and its row in the index.
use minicode_agent_runtime.Prelude.{
  ℕ, Bool, true, false, ◌≤◌, List, [], ◌∷◌, ◌++◌, Option, none, some, ◌≡◌, refl, ◌||◌, not, keep,
  leb, Bool-cases, inl, inr, arith,
}
use minicode_agent_runtime.Prelude.Codes.{
  Text, blank, within, strip, last_bytes, utf8_size, same_text_refl, within-append,
  within-append_right, last_bytes_all, within-of-last_bytes,
}
use minicode_agent_runtime.Agent.Memory.{
  WriteRow, Append, write_to, has_key, find_row, put_row, block, consolidation_marker,
  file_contains_marker, tail_contains_marker, tail_limit, append_by,
}

-- The row under a key is found, behind rows of other keys.
find-keep_other :
    (row : WriteRow) (rows : List WriteRow)
    → find_row row.source_ref row.kind
        (keep (λ (r : WriteRow). not (has_key row.source_ref row.kind r)) rows ++ row ∷ [])
      ≡ some row
unfolding find_row
find-keep_other row [] = rw (same_text_refl row.source_ref) (rw (same_text_refl row.kind) refl)
find-keep_other row (r ∷ rows) = elim (Bool-cases (has_key row.source_ref row.kind r)) [
  | inl e ↦ rw e (find-keep_other row rows)
  | inr e ↦ rw e (rw e (find-keep_other row rows))
]

pub find-put_row :
    (row : WriteRow) (rows : List WriteRow)
    → find_row row.source_ref row.kind (put_row row rows) ≡ some row
unfolding put_row
find-put_row row rows = find-keep_other row rows

-- A marker is in the file after it was written.
within-write_to :
    (file : Option Text) (marker rest : Text)
    → blank marker ≡ false
    → file_contains_marker (write_to file (marker ++ rest)) marker ≡ true
within-write_to none marker rest h = rw (h, within-append marker rest) refl
within-write_to (some t) marker rest h =
    rw (h, within-append_right marker t (marker ++ rest) (within-append marker rest)) refl

-- The end of a text that is short enough is in the tail that is read.
within-last_bytes :
    (limit : ℕ) (s a t : Text)
    → utf8_size t ≤ limit
    → within s t ≡ true
    → within s (last_bytes limit (a ++ t)) ≡ true
unfolding last_bytes
within-last_bytes limit s [] t small h = rw (last_bytes_all limit t small) h
within-last_bytes limit s (c ∷ a) t small h =
    elim (Bool-cases (leb (utf8_size (c ∷ a ++ t)) limit)) [
      | inl e ↦ rw e (within-append_right s (c ∷ a) t h)
      | inr e ↦ rw e (within-last_bytes limit s a t small h)
    ]

blank-append_right : (s t : Text) → blank t ≡ false → blank (s ++ t) ≡ false
blank-append_right [] t h = h
blank-append_right (c ∷ s) t h = refl

blank_of_marker : (s t : Text) → blank s ≡ false → blank (s ++ t) ≡ false
blank_of_marker [] t h = cc
blank_of_marker (c ∷ s) t h = refl

tail-write_to :
    (file : Option Text) (marker t : Text)
    → blank t ≡ false
    → within marker t ≡ true
    → utf8_size t ≤ tail_limit
    → tail_contains_marker (write_to file t) marker ≡ true
tail-write_to none marker t h m small =
    rw (h, within-last_bytes tail_limit marker [] t small m) refl
tail-write_to (some s) marker t h m small =
    rw (blank-append_right s t h, within-last_bytes tail_limit marker s t small m) refl

module _ (source_ref kind : Text) where
  abbrev marker : Text
  marker = consolidation_marker source_ref kind

  -- The marker is never empty.
  pub marker_nonblank : blank (consolidation_marker source_ref kind) ≡ false
  unfolding consolidation_marker
  marker_nonblank = refl

  abbrev pub row_of : Text → Bool → WriteRow
  row_of text trailing = record {
    source_ref = strip source_ref;
    kind = strip kind;
    payload = text;
    trailing_blank_line = trailing;
  }

  -- What an append that wrote was
  abbrev pub Wrote : Option Text → Text → Bool → List WriteRow → Append → Type 0
  Wrote file text trailing rows out =
      (find_row (strip source_ref) (strip kind) rows ≡ none)
      × (blank (strip source_ref) || blank (strip kind) || blank text ≡ false)
      × (out.added ≡ some (block (consolidation_marker source_ref kind) text trailing))
      × (out.rows ≡ put_row (row_of text trailing) rows)

  -- What is appended when the row is there and the file has the marker: nothing.
  pub append_by_found :
      (file : Option Text) (rows : List WriteRow) (row row' : WriteRow) (found : Option WriteRow)
      → found ≡ some row
      → file_contains_marker file (consolidation_marker source_ref kind) ≡ true
      → append_by found (consolidation_marker source_ref kind) file rows row'
        ≡ record { returned = false; added = none; rows = rows }
  append_by_found file rows row row' found e h = rw e (rw h refl)

  pub block_marked :
      (file : Option Text) (text : Text) (trailing : Bool)
      → file_contains_marker
          (write_to file (block (consolidation_marker source_ref kind) text trailing))
          (consolidation_marker source_ref kind)
        ≡ true
  unfolding block
  block_marked file text trailing =
      within-write_to file (consolidation_marker source_ref kind) _ marker_nonblank

  pub tail_marked :
      (file : Option Text) (text : Text) (trailing : Bool)
      → utf8_size (block (consolidation_marker source_ref kind) text trailing) ≤ tail_limit
      → tail_contains_marker
          (write_to file (block (consolidation_marker source_ref kind) text trailing))
          (consolidation_marker source_ref kind)
        ≡ true
  unfolding block
  tail_marked file text trailing small =
      tail-write_to file (consolidation_marker source_ref kind)
        (block (consolidation_marker source_ref kind) text trailing)
        (blank_of_marker (consolidation_marker source_ref kind) _ marker_nonblank)
        (within-append (consolidation_marker source_ref kind) _) small

  pub contains_of_tail :
      (file : Option Text)
      → tail_contains_marker file (consolidation_marker source_ref kind) ≡ true
      → file_contains_marker file (consolidation_marker source_ref kind) ≡ true
  contains_of_tail none h = h
  contains_of_tail (some t) h =
      rw (marker_nonblank)
        (within-of-last_bytes tail_limit (consolidation_marker source_ref kind) t (ground arith))
