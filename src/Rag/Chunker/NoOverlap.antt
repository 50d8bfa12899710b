-- ===== src/Rag/Chunker/NoOverlap.antt =====
-- agent/rag/chunker.py: what `chunk_text` does with an overlap of 0.
use mathlib.Core.List.{append_assoc}
use minicode_agent_runtime.Prelude.{
  ℕ, false, ◌≡◌, refl, ltb, List, [], ◌∷◌, ◌++◌, length, All, Bool-cases, inl, inr, ap, sym, ◌∙◌,
  not, ◌&&◌, ◌+◌,
}
use minicode_agent_runtime.Rag.Chunker.{is_empty, tail_of, nonempty, join, take_sentence, chunks_of}

module _ {A : Type 0} (space : A) (max_chars : ℕ) where
  -- All the sentences, with spaces between them
  abbrev pub join_all : List A → List (List A) → List A
  join_all cur [] = cur
  join_all cur (s ∷ ss) = join_all (join space max_chars 0 cur s) ss

  take_sentence-rest :
      (s cur : List A)
      → ltb max_chars (length s) ≡ false
      → (take_sentence space max_chars 0 s cur).1 ≡ join space max_chars 0 cur s
  unfolding take_sentence tail_of
  take_sentence-rest s cur e =
      elim (Bool-cases (not (is_empty cur) && ltb max_chars (length cur + 1 + length s))) [
        | inl k ↦ rw (e, k) refl
        | inr k ↦ rw (e, k) refl
      ]

  -- With an overlap of 0 and sentences none of which is longer than max_chars, the last chunk that
  -- the loop makes is all sentences together, however long that is.
  pub chunks_of-join_all :
      (ss : List (List A)) (cur : List A)
      → All (λ s. ltb max_chars (length s) ≡ false) ss
      → (closed : List (List A)) × (chunks_of space max_chars 0 ss cur
          ≡ closed ++ nonempty (join_all cur ss))
  unfolding chunks_of
  chunks_of-join_all [] cur h = ([], refl)
  chunks_of-join_all (s ∷ ss) cur h =
      let (first, rest) = take_sentence space max_chars 0 s cur in
      let (closed, e) = chunks_of-join_all ss (join space max_chars 0 cur s) h.1 in
      (
        first ++ closed,
        ap (λ (r : List A). first ++ chunks_of space max_chars 0 ss r)
              (take_sentence-rest s cur h.0)
            ∙ ap (λ (r : List (List A)). first ++ r) e
            ∙ sym
                (append_assoc first closed (nonempty (join_all (join space max_chars 0 cur s) ss))),
      )
