-- ===== src/Rag/Chunker/Sizes.antt =====
-- agent/rag/chunker.py: how long the chunks are.
use minicode_agent_runtime.Prelude.{
  ℕ, false, ◌≡◌, ◌≤◌, ◌<◌, refl, zero, suc, ◌+◌, ◌-◌, ltb, leb, ltb→le, leb→le, List, [], ◌∷◌,
  length, keep, All, All-append, All-keep, All-map_of, arith, Bool-cases, inl, inr, length-take,
  length-drop, length-append, not, ◌&&◌, leb→lt, ◌⊎◌,
}
use minicode_agent_runtime.Rag.Chunker.{
  is_empty, pieces, hard_split, tail_of, nonempty, join, take_sentence, chunks_of, or_whole,
  chunk_text,
}

-- A list within a bound
abbrev pub AtMost : {A : Type 0} → ℕ → List A → Type 0
AtMost n s = length s ≤ n

module _ {A : Type 0} where
  pieces-AtMost :
      (max_chars step wait : ℕ) (s : List A) → All (AtMost max_chars) (pieces max_chars step wait s)
  unfolding pieces
  pieces-AtMost max_chars step wait [] = tt
  pieces-AtMost max_chars step zero (c ∷ s) =
      (omega (arith, length-take max_chars (c ∷ s)), pieces-AtMost max_chars step step s)
  pieces-AtMost max_chars step (suc wait) (c ∷ s) = pieces-AtMost max_chars step wait s

  nonempty-AtMost : (n : ℕ) (s : List A) → AtMost n s → All (AtMost n) (nonempty s)
  nonempty-AtMost n [] h = tt
  nonempty-AtMost n (c ∷ s) h = (h, tt)

  tail_of-le : (overlap : ℕ) (cur : List A) → 0 < overlap → length (tail_of overlap cur) ≤ overlap
  unfolding tail_of
  tail_of-le overlap cur h = elim (Bool-cases (ltb 0 overlap && ltb overlap (length cur))) [
    | inl e ↦ rw e (omega (arith, length-drop (length cur - overlap) cur))
    | inr e ↦ rw e (ground (arith, ltb→le overlap (length cur)))
  ]

module _ {A : Type 0} (space : A) (max_chars overlap : ℕ) where
  -- What a chunk may hold: a sentence, and the overlap with a space before it.
  abbrev bound : ℕ
  bound = max_chars + overlap + 1

  length-join : (a b : List A) → length (join space max_chars overlap a b) ≤ length a + 1 + length b
  length-join [] b = omega arith
  length-join (c ∷ a) b = omega (arith, length-append (c ∷ a) (space ∷ b))

  join-AtMost :
      (cur s : List A)
      → (not (is_empty cur) && ltb max_chars (length cur + 1 + length s)) ≡ false
      → length s ≤ max_chars
      → AtMost bound (join space max_chars overlap cur s)
  join-AtMost [] s k h = omega (arith, h)
  join-AtMost (c ∷ a) s k h =
      omega (
        arith,
        length-append (c ∷ a) (space ∷ s),
        ltb→le max_chars (length (c ∷ a) + 1 + length s) k,
      )

  take_sentence-AtMost :
      (s cur : List A)
      → 0 < overlap
      → AtMost bound cur
      → let (closed, cur') = take_sentence space max_chars overlap s cur in
        All (AtMost bound) closed × AtMost bound cur'
  unfolding take_sentence hard_split
  take_sentence-AtMost s cur o h = elim (Bool-cases (ltb max_chars (length s))) [
    | inl e ↦ rw e (
      All-append (AtMost bound) (nonempty cur) _ (nonempty-AtMost bound cur h) (
          All-keep (AtMost bound) (λ (p : List A). not (is_empty p)) _
            (All-map_of (AtMost max_chars) (AtMost bound) _ (λ p q. omega (arith, q))
              (pieces-AtMost max_chars _ 0 s))),
      omega arith,
    )
    | inr e ↦ elim (Bool-cases (not (is_empty cur) && ltb max_chars (length cur + 1 + length s))) [
      | inl k ↦
          rw (e, k)
            (
              (h, tt),
              omega (
                arith,
                length-join (tail_of overlap cur) s,
                tail_of-le overlap cur o,
                ltb→le max_chars (length s) e,
              ),
            )
      | inr k ↦ rw (e, k) (tt, join-AtMost cur s k (ltb→le max_chars (length s) e))
    ]
  ]

  chunks_of-AtMost :
      (ss : List (List A)) (cur : List A)
      → 0 < overlap
      → AtMost bound cur
      → All (AtMost bound) (chunks_of space max_chars overlap ss cur)
  unfolding chunks_of
  chunks_of-AtMost [] cur o h = nonempty-AtMost bound cur h
  chunks_of-AtMost (s ∷ ss) cur o h =
      let (closed, next) = take_sentence-AtMost s cur o h in
      All-append (AtMost bound) (take_sentence space max_chars overlap s cur).0 _ closed
        (chunks_of-AtMost ss (take_sentence space max_chars overlap s cur).1 o next)

  -- Nothing of a list is kept only if all of it fails the test.
  keep-nil :
      (min_chars : ℕ) (cs : List (List A))
      → keep (λ (c : List A). leb min_chars (length c)) cs ≡ []
      → All (λ c. length c < min_chars) cs
  keep-nil min_chars [] e = tt
  keep-nil min_chars (c ∷ cs) e = elim (Bool-cases (leb min_chars (length c))) [
    | inl q ↦ absurd (cc (rw q at e))
    | inr q ↦ (leb→lt min_chars (length c) q, keep-nil min_chars cs (rw q at e))
  ]

  -- The chunks are within the bound, or they are the whole text, since all were too short.
  abbrev pub Sized : ℕ → List A → List (List A) → List (List A) → Type 0
  Sized min_chars whole found chunks =
      All (λ c. length c ≤ max_chars + overlap + 1) chunks
      ⊎ ((chunks ≡ whole ∷ []) × All (λ c. length c < min_chars) found)

  or_whole-Sized :
      (min_chars : ℕ) (whole : List A) (found kept : List (List A))
      → keep (λ (c : List A). leb min_chars (length c)) found ≡ kept
      → All (AtMost bound) kept
      → Sized min_chars whole found (or_whole space max_chars overlap kept whole)
  or_whole-Sized min_chars whole found [] e h = inr (refl, keep-nil min_chars found e)
  or_whole-Sized min_chars whole found (c ∷ cs) e h = inl h

  -- With an overlap above 0, every chunk of chunk_text has at most max_chars + overlap + 1
  -- characters, or the only chunk is the whole stripped text and all chunks that were found are
  -- shorter than min_chars.
  pub chunk_text-Sized :
      (strip : List A → List A) (split : List A → List (List A)) (min_chars : ℕ) (text : List A)
      → 0 < overlap
      → Sized min_chars
          (strip text)
          (chunks_of space max_chars overlap (split (strip text)) [])
          (chunk_text space max_chars overlap strip split min_chars text)
  unfolding chunk_text
  chunk_text-Sized strip split min_chars text o =
      let found = chunks_of space max_chars overlap (split (strip text)) [] in
      elim (Bool-cases (is_empty (strip text))) [
        | inl e ↦ rw e (inl tt)
        | inr e ↦ elim (Bool-cases (leb (length (strip text)) max_chars)) [
          | inl k ↦ rw (e, k) (inl (omega (arith, leb→le (length (strip text)) max_chars k), tt))
          | inr k ↦
              rw (e, k)
                (or_whole-Sized min_chars (strip text) found _ refl (
                  All-keep (AtMost bound) (λ (c : List A). leb min_chars (length c)) found
                    (chunks_of-AtMost (split (strip text)) [] o (omega arith))))
        ]
      ]
