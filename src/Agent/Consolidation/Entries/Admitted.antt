-- ===== src/Agent/Consolidation/Entries/Admitted.antt =====
-- agent/looping/consolidation.py: which history entries are admitted.
use minicode_agent_runtime.Prelude.{
  ℕ, false, ◌≤◌, List, [], ◌∷◌, Option, none, some, ◌≡◌, refl, ◌||◌, All, Bool-cases, inl, inr,
  arith, true, All-map_of,
}
use minicode_agent_runtime.Prelude.Codes.{Text, blank, same_text_refl}
use minicode_agent_runtime.Agent.Consolidation.Entries.{
  summaries, RawItem, plain, entry, other_item, RawEntries, pos, negsuc, read_item,
  coerce_emotional_weight, seen_in, take_item, normalize_items, normalize_history_entries,
  candidates_of,
}

-- No text of the list is in `seen`, none is twice.
abbrev pub Fresh : (seen : List Text) → List Text → Type 0
Fresh seen [] = Unit
Fresh seen (t ∷ ts) = (seen_in seen t ≡ false) × Fresh (t ∷ seen) ts

-- An entry that may be written: a summary, and a weight on the scale
abbrev pub IsEntry : Text × ℕ → Type 0
IsEntry e = (blank e.0 ≡ false) × (e.1 ≤ 10)

read_item_bounds : (item : RawItem) (e : Text × ℕ) → read_item item ≡ some e → e.1 ≤ 10
unfolding read_item coerce_emotional_weight
read_item_bounds (plain s) e h = ground arith
read_item_bounds (entry s none) e h = ground arith
read_item_bounds (entry s (some (pos n))) e h = ground arith
read_item_bounds (entry s (some (negsuc n))) e h = ground arith
read_item_bounds other_item e h = cc

take_item-Fresh :
    (r : Option (Text × ℕ)) (seen : List Text) (rest : List Text → List (Text × ℕ))
    → ((e : Text × ℕ) → r ≡ some e → e.1 ≤ 10)
    → ((s : List Text) → Fresh s (summaries (rest s)) × All IsEntry (rest s))
    → Fresh seen (summaries (take_item r seen rest)) × All IsEntry (take_item r seen rest)
take_item-Fresh none seen rest small ih = ih seen
take_item-Fresh (some (summary, weight)) seen rest small ih =
    elim (Bool-cases (blank summary || seen_in seen summary)) [
      | inl e ↦ rw e (ih seen)
      | inr e ↦ rw e (
          let next = ih (summary ∷ seen) in
          (
            (ground (arith, e), next.0),
            ((ground (arith, e), small (summary, weight) refl), next.1),
          ))
    ]

normalize_items-Fresh :
    (seen : List Text) (items : List RawItem)
    → Fresh seen (summaries (normalize_items seen items)) × All IsEntry (normalize_items seen items)
unfolding normalize_items
normalize_items-Fresh seen [] = (tt, tt)
normalize_items-Fresh seen (item ∷ items) =
    take_item-Fresh (read_item item) seen (λ (s : List Text). normalize_items s items)
      (read_item_bounds item) (λ (s : List Text). normalize_items-Fresh s items)

-- An item whose summary is not empty is among the entries, or was seen before.
abbrev pub IsCovered : (seen : List Text) → List (Text × ℕ) → Option (Text × ℕ) → Type 0
IsCovered seen es none = Unit {0}
IsCovered seen es (some (summary, weight)) =
    (blank summary || (seen_in seen summary || seen_in (summaries es) summary)) ≡ true

IsCovered-cons :
    (seen : List Text) (es : List (Text × ℕ)) (summary : Text) (weight : ℕ) (r : Option (Text × ℕ))
    → IsCovered (summary ∷ seen) es r
    → IsCovered seen ((summary, weight) ∷ es) r
IsCovered-cons seen es summary weight none h = tt
IsCovered-cons seen es summary weight (some (t, w)) h = ground (arith, h)

take_item-IsCovered :
    (r : Option (Text × ℕ)) (seen : List Text) (items : List RawItem)
    (rest : List Text → List (Text × ℕ))
    → ((s : List Text) → All (λ (i : RawItem). IsCovered s (rest s) (read_item i)) items)
    → IsCovered seen (take_item r seen rest) r
      × All (λ (i : RawItem). IsCovered seen (take_item r seen rest) (read_item i)) items
take_item-IsCovered none seen items rest ih = (tt, ih seen)
take_item-IsCovered (some (summary, weight)) seen items rest ih =
    elim (Bool-cases (blank summary || seen_in seen summary)) [
      | inl e ↦ rw e (ground (arith, e), ih seen)
      | inr e ↦ rw e (
        rw (same_text_refl summary) (ground arith),
        All-map_of
            (λ (i : RawItem). IsCovered (summary ∷ seen) (rest (summary ∷ seen)) (read_item i))
            (λ (i : RawItem).
              IsCovered seen ((summary, weight) ∷ rest (summary ∷ seen)) (read_item i))
            items
            (λ (i : RawItem).
              IsCovered-cons seen (rest (summary ∷ seen)) summary weight (read_item i))
            (ih (summary ∷ seen)),
      )
    ]

normalize_items-IsCovered :
    (items : List RawItem) (seen : List Text)
    → All (λ (i : RawItem). IsCovered seen (normalize_items seen items) (read_item i)) items
unfolding normalize_items
normalize_items-IsCovered [] seen = tt
normalize_items-IsCovered (item ∷ items) seen =
    let out =
      take_item-IsCovered (read_item item) seen items (λ (s : List Text). normalize_items s items)
        (normalize_items-IsCovered items) in
    (out.0, out.1)

-- The history entries that are taken from an answer are pairwise different, none is empty, each
-- weight is at most 10, and the summary of every readable candidate, if it is not empty, is among
-- them.
pub normalize_history_entries-Fresh :
    (raw : RawEntries) (fallback : Option RawItem)
    → let es = normalize_history_entries raw fallback in
      Fresh [] (summaries es)
      × All IsEntry es
      × All (λ (i : RawItem). IsCovered [] es (read_item i)) (candidates_of raw fallback)
unfolding normalize_history_entries
normalize_history_entries-Fresh raw fallback =
    let items = candidates_of raw fallback in
    let fresh = normalize_items-Fresh [] items in
    (fresh.0, fresh.1, normalize_items-IsCovered items [])
