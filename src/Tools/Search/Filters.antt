-- ===== src/Tools/Search/Filters.antt =====
-- agent/tools/search_backend.py: what a search leaves out.
use minicode_agent_runtime.Prelude.{
  ℕ, String, Bool, true, false, ◌≡◌, refl, List, [], ◌∷◌, Option, none, some, All, arith, contains,
  take, map, Bool-cases, inl, inr, strip, sym, ◌∙◌, eq_iff, subst, suc, zero, not, ◌||◌, ltb, ◌&&◌,
}
use minicode_agent_runtime.Prelude.Dict.{Dict, get, All-get}
use minicode_agent_runtime.Tools.{ToolDocument, Found, sort, insert_sorted}
use minicode_agent_runtime.Tools.Search.{
  TextLib, risk_passes, doc_to_result, score, ranks_before, scan, by_keywords, exact, search_docs,
  default_normalize, first_or,
}

module _ {A : Type 0} (P : A → Type 0) (before : A → A → Bool) where
  All-insert_sorted : (x : A) (ys : List A) → P x → All P ys → All P (insert_sorted before x ys)
  unfolding insert_sorted
  All-insert_sorted x [] px h = (px, tt)
  All-insert_sorted x (y ∷ ys) px h = elim (Bool-cases (before x y)) [
    | inl e ↦ rw e (px, h)
    | inr e ↦ rw e (h.0, All-insert_sorted x ys px h.1)
  ]

  All-sort : (xs : List A) → All P xs → All P (sort before xs)
  unfolding sort
  All-sort [] h = tt
  All-sort (x ∷ xs) h = All-insert_sorted x (sort before xs) h.0 (All-sort xs h.1)

  All-take : (n : ℕ) (xs : List A) → All P xs → All P (take n xs)
  All-take zero xs h = tt
  All-take (suc n) [] h = tt
  All-take (suc n) (x ∷ xs) h = (h.0, All-take n xs h.1)

-- Each document stands under its own name.
abbrev pub Named : Dict ToolDocument → Type 0
Named docs = All (λ e. e.0 ≡ e.1.name) docs

found_inj : (a b : Found) → some a ≡ some b → a ≡ b
found_inj a b e = cc

named_at :
    (docs : Dict ToolDocument) (key : String)
    → Named docs
    → (d : ToolDocument) → get docs key ≡ some d
    → d.name ≡ key
named_at docs key h d e =
    let (j, q, own) = All-get (λ e. e.0 ≡ e.1.name) docs key d e h in sym own ∙ (eq_iff j key).0 q

module _ (lib : TextLib) (risks : Option (List String)) (skip : List String) where
  -- A tool that is not left out, of a risk that the filter passes.
  abbrev pub Admitted : Found → Type 0
  Admitted f = (contains skip f.name ≡ false) × (risk_passes risks f.risk ≡ true)

  scan-Admitted :
      (kws : List String) (docs : Dict ToolDocument)
      → Named docs
      → All (λ e. Admitted e.1) (scan lib risks skip kws docs)
  unfolding scan doc_to_result
  scan-Admitted kws [] h = tt
  scan-Admitted kws ((name, d) ∷ docs) h =
      elim (Bool-cases
        (contains skip name || not (risk_passes risks d.risk) || not (ltb 0 (score lib d kws)))) [
          | inl e ↦ rw e (scan-Admitted kws docs h.1)
          | inr e ↦ rw e (
            (subst (λ (n : String). contains skip n ≡ false) h.0 (ground arith), ground arith),
            scan-Admitted kws docs h.1,
          )
        ]

  All-results :
      (es : List (ℕ × Found))
      → All (λ e. Admitted e.1) es
      → All Admitted (map (λ (e : ℕ × Found). e.1) es)
  All-results [] h = tt
  All-results (e ∷ es) h = (h.0, All-results es h.1)

  by_keywords-Admitted :
      (docs : Dict ToolDocument) (top_k : ℕ) (kws : List String)
      → Named docs
      → All Admitted (by_keywords lib docs top_k risks skip kws)
  unfolding by_keywords
  by_keywords-Admitted docs top_k [] h = tt
  by_keywords-Admitted docs top_k (kw ∷ kws) h = All-results _ (
      All-take (λ e. Admitted e.1) (ranks_before lib) top_k _
        (All-sort (λ e. Admitted e.1) (ranks_before lib) _ (scan-Admitted (kw ∷ kws) docs h)))

  exact-Admitted :
      (found : Option ToolDocument) (query : String) (r : Found)
      → ((d : ToolDocument) → found ≡ some d → d.name ≡ query)
      → exact lib found risks skip query ≡ some r
      → Admitted r
  unfolding exact doc_to_result
  exact-Admitted none query r own e = absurd (cc e)
  exact-Admitted (some d) query r own e =
      elim (Bool-cases (not (contains skip query) && risk_passes risks d.risk)) [
        | inr q ↦ absurd (cc (rw (q, exact) at e))
        | inl q ↦ subst Admitted (found_inj _ r (rw (q, exact) at e)) (
          subst (λ (n : String). contains skip n ≡ false) (sym (own d refl)) (ground arith),
          ground arith,
        )
      ]

  first_or-Admitted :
      (x : Option Found) (found : List Found)
      → ((r : Found) → x ≡ some r → Admitted r)
      → All Admitted found
      → All Admitted (first_or x found)
  first_or-Admitted none found h k = k
  first_or-Admitted (some r) found h k = (h r refl, tt)

  -- x
  pub search_docs-Admitted :
      (docs : Dict ToolDocument) (query : String) (top_k : ℕ)
      → Named docs
      → All Admitted (search_docs lib docs query top_k risks skip)
  unfolding search_docs
  search_docs-Admitted docs query top_k h =
      first_or-Admitted (exact lib (get docs (strip query)) risks skip (strip query)) _
        (λ r e.
          exact-Admitted (get docs (strip query)) (strip query) r (named_at docs (strip query) h) e)
        (by_keywords-Admitted docs top_k (default_normalize lib query) h)
