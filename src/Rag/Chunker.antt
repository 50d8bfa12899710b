-- ===== src/Rag/Chunker.antt =====
-- agent/rag/chunker.py: `chunk_text`, on texts as lists of characters.
pub mod NoOverlap
pub mod Sizes
use minicode_agent_runtime.Prelude.{
  ℕ, Bool, true, false, zero, suc, ◌-◌, ◌+◌, max, ltb, leb, if◌then◌else◌, List, [], ◌∷◌, ◌++◌,
  length, take, drop, keep, ◌&&◌, not,
}

module _ {A : Type 0} where
  abbrev pub is_empty : List A → Bool
  is_empty [] = true
  is_empty (c ∷ s) = false

  -- `s[i : i + max_chars]` for `i` from the first position that is `wait` characters ahead on, in
  -- steps; `step` is one less than the step.
  unfoldable pub pieces : ℕ → ℕ → ℕ → List A → List (List A)
  pieces max_chars step wait [] = []
  pieces max_chars step zero (c ∷ s) = take max_chars (c ∷ s) ∷ pieces max_chars step step s
  pieces max_chars step (suc wait) (c ∷ s) = pieces max_chars step wait s

  -- The pieces of a sentence that is too long; an empty piece is left out.
  unfoldable pub hard_split : ℕ → ℕ → List A → List (List A)
  unfolding pieces
  hard_split max_chars overlap s =
      keep (λ (p : List A). not (is_empty p))
        (pieces max_chars (max 1 (max_chars - overlap) - 1) 0 s)

  -- `cur[-overlap:] if overlap and len(cur) > overlap else cur`
  unfoldable pub tail_of : ℕ → List A → List A
  tail_of overlap cur =
      if ltb 0 overlap && ltb overlap (length cur) then drop (length cur - overlap) cur else cur

  abbrev pub nonempty : List A → List (List A)
  nonempty [] = []
  nonempty (c ∷ s) = (c ∷ s) ∷ []

module _ {A : Type 0} (space : A) (max_chars overlap : ℕ) where
  -- `(a + " " + b) if a else b`
  abbrev pub join : List A → List A → List A
  join [] b = b
  join (c ∷ a) b = (c ∷ a) ++ space ∷ b

  -- One sentence: the chunks that it closes, and the new `cur`.
  unfoldable pub take_sentence : List A → List A → List (List A) × List A
  take_sentence s cur =
      if ltb max_chars (length s)
      then (nonempty cur ++ hard_split max_chars overlap s, [])
      else (if not (is_empty cur) && ltb max_chars (length cur + 1 + length s)
          then (cur ∷ [], join (tail_of overlap cur) s)
          else ([], join cur s))

  -- The loop over the sentences
  unfoldable pub chunks_of : List (List A) → List A → List (List A)
  unfolding take_sentence
  chunks_of [] cur = nonempty cur
  chunks_of (s ∷ ss) cur = let (closed, cur') = take_sentence s cur in closed ++ chunks_of ss cur'

  abbrev pub or_whole : List (List A) → List A → List (List A)
  or_whole [] text = text ∷ []
  or_whole (c ∷ cs) text = c ∷ cs

  -- `chunk_text`: `stripped` is `text.strip()`, `split` the stripped sentences that are not empty.
  unfoldable pub chunk_text :
      (List A → List A) → (List A → List (List A)) → ℕ → List A → List (List A)
  unfolding chunks_of
  chunk_text strip split min_chars text =
      let stripped = strip text in
      if is_empty stripped
      then []
      else (if leb (length stripped) max_chars
          then stripped ∷ []
          else or_whole
              (keep (λ (c : List A). leb min_chars (length c)) (chunks_of (split stripped) []))
              stripped)
