-- ===== src/Agent/Consolidation/Entries.antt =====
-- agent/looping/consolidation.py: `_format_pending_items` and `_normalize_history_entries`, which
-- admit what the model answered, and the split of HISTORY.md into entries.
pub mod Admitted
use minicode_agent_runtime.Prelude.{
  ℕ, Bool, false, min, if◌then◌else◌, List, [], ◌∷◌, ◌++◌, Option, none, some, ◌||◌, not,
}
use minicode_agent_runtime.Prelude.Codes.{Text, codes, blank, strip, same_text, join_lines}

-- An integer; `negsuc n` is -(n + 1).
pub data ℤ : Type 0 where
  pos : ℕ → ℤ
  negsuc : ℕ → ℤ

-- `_coerce_emotional_weight`, of what `int(value or 0)` gives; none for a TypeError or a ValueError.
unfoldable pub coerce_emotional_weight : Option ℤ → ℕ
coerce_emotional_weight none = 0
coerce_emotional_weight (some (pos n)) = min 10 n
coerce_emotional_weight (some (negsuc n)) = 0

-- An item of the answer: a text, a dict with `str(item.get("summary") or "")` and the integer of
-- its weight, or a value of another type.
pub data RawItem : Type 0 where
  plain : (summary : Text) → RawItem
  entry : (summary : Text) → (emotional_weight : Option ℤ) → RawItem
  other_item : RawItem

-- The value of "history_entries"
pub data RawEntries : Type 0 where
  absent : RawEntries
  listed : List RawItem → RawEntries
  single : RawItem → RawEntries

abbrev optional : Option RawItem → List RawItem
optional none = []
optional (some item) = item ∷ []

unfoldable pub candidates_of : RawEntries → (fallback : Option RawItem) → List RawItem
candidates_of absent fallback = optional fallback
candidates_of (listed items) fallback = items
candidates_of (single item) fallback = item ∷ optional fallback

-- The summary and the weight of an item; none to pass over it
unfoldable pub read_item : RawItem → Option (Text × ℕ)
unfolding coerce_emotional_weight
read_item (plain summary) = some (strip summary, 0)
read_item (entry summary weight) = some (strip summary, coerce_emotional_weight weight)
read_item other_item = none

-- `text in texts`
abbrev pub seen_in : List Text → Text → Bool
seen_in [] t = false
seen_in (s ∷ ss) t = same_text s t || seen_in ss t

abbrev pub take_item :
    Option (Text × ℕ) → (seen : List Text) → (List Text → List (Text × ℕ)) → List (Text × ℕ)
take_item none seen rest = rest seen
take_item (some (summary, weight)) seen rest =
    let skipped = rest seen in
    let taken = rest (summary ∷ seen) in
    if blank summary || seen_in seen summary then skipped else (summary, weight) ∷ taken

-- The loop of `_normalize_history_entries`
unfoldable pub normalize_items : (seen : List Text) → List RawItem → List (Text × ℕ)
normalize_items seen [] = []
normalize_items seen (item ∷ items) =
    take_item (read_item item) seen (λ (s : List Text). normalize_items s items)

-- `_normalize_history_entries`
unfoldable pub normalize_history_entries : RawEntries → Option RawItem → List (Text × ℕ)
unfolding normalize_items candidates_of
normalize_history_entries raw fallback = normalize_items [] (candidates_of raw fallback)

-- An item of "pending_items": a dict with its tag and content as texts, or another value
pub data RawPending : Type 0 where
  tagged : (tag content : Text) → RawPending
  other_pending : RawPending

abbrev pub allowed_pending_tags : List Text
allowed_pending_tags =
    codes "identity"
    ∷ codes "preference"
    ∷ codes "key_info"
    ∷ codes "health_long_term"
    ∷ codes "requested_memory"
    ∷ codes "correction"
    ∷ []

-- The line of an item; none to pass over it
unfoldable pub pending_line : (lower : Text → Text) → RawPending → Option Text
pending_line lower (tagged tag content) =
    let t = lower (strip tag) in
    let c = strip content in
    if not (seen_in allowed_pending_tags t) || blank c
    then none
    else some (codes "- [" ++ (t ++ (codes "] " ++ c)))
pending_line lower other_pending = none

abbrev pub take_line : Option Text → (seen : List Text) → (List Text → List Text) → List Text
take_line none seen rest = rest seen
take_line (some line) seen rest =
    let skipped = rest seen in
    let taken = rest (line ∷ seen) in if seen_in seen line then skipped else line ∷ taken

unfoldable pub pending_lines :
    (lower : Text → Text) → (seen : List Text) → List RawPending → List Text
pending_lines lower seen [] = []
pending_lines lower seen (item ∷ items) =
    take_line (pending_line lower item) seen (λ (s : List Text). pending_lines lower s items)

-- `_format_pending_items`; none for a value that is no list
unfoldable pub format_pending_items : (lower : Text → Text) → Option (List RawPending) → Text
unfolding pending_lines
format_pending_items lower none = []
format_pending_items lower (some items) = join_lines (pending_lines lower [] items)

-- `[entry for entry, _ in history_entry_payloads]`
abbrev pub summaries : List (Text × ℕ) → List Text
summaries [] = []
summaries ((summary, weight) ∷ es) = summary ∷ summaries es
