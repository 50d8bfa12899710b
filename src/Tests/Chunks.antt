-- ===== src/Tests/Chunks.antt =====
-- Chunks of texts: samples and examples for agent/rag/chunker.py.
use minicode_agent_runtime.Prelude.{ℕ, ◌≡◌, refl, List, [], ◌∷◌, ◌++◌, arith}
use minicode_agent_runtime.Rag.Chunker.{chunk_text, chunks_of, nonempty, take_sentence, tail_of}
use minicode_agent_runtime.Rag.Chunker.Sizes.{Sized, chunk_text-Sized}
use minicode_agent_runtime.Rag.Chunker.NoOverlap.{chunks_of-join_all, join_all}

-- A text of two sentences; 0 is the space.
abbrev one : List ℕ
one = 1 ∷ 2 ∷ 3 ∷ []

abbrev two : List ℕ
two = 4 ∷ 5 ∷ 6 ∷ []

abbrev text : List ℕ
text = one ++ two

abbrev same : List ℕ → List ℕ
same s = s

abbrev split : List ℕ → List (List ℕ)
split s = one ∷ two ∷ []

chunk_text_overlapping :
    chunk_text 0 4 1 same split 2 text ≡ (1 ∷ 2 ∷ 3 ∷ []) ∷ (3 ∷ 0 ∷ 4 ∷ 5 ∷ 6 ∷ []) ∷ []
unfolding chunk_text chunks_of take_sentence tail_of
chunk_text_overlapping = refl

chunk_text-Sized_example :
    Sized 0 4 1 2 text (chunks_of 0 4 1 (split text) []) (chunk_text 0 4 1 same split 2 text)
chunk_text-Sized_example = chunk_text-Sized 0 4 1 same split 2 text (omega arith)

chunks_of-join_all_example :
    (closed : List (List ℕ)) × (chunks_of 0 4 0 (one ∷ two ∷ []) []
      ≡ closed ++ nonempty (join_all 0 4 [] (one ∷ two ∷ [])))
chunks_of-join_all_example = chunks_of-join_all 0 4 (one ∷ two ∷ []) [] (refl, (refl, tt))
