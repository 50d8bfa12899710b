-- ===== src/Tools/Search.antt =====
-- agent/tools/search_backend.py: `KeywordSearchBackend` with its scores.
use Prim.Native.Char.{Char, code}
use Prim.Native.String.{◌++◌ as str_append}
pub mod Filters
use minicode_agent_runtime.Prelude.{
  ℕ, String, Bool, true, false, ◌+◌, ltb, leb, ◌==◌, if◌then◌else◌, List, [], ◌∷◌, ◌++◌, Option,
  none, some, str_eq, truthy, strip, contains, any, keep, take, not, map, ◌&&◌, ◌||◌,
}
use minicode_agent_runtime.Prelude.Dict.{Dict, get, put, pop}
use minicode_agent_runtime.Tools.{ToolDocument, Found, sort}

-- `rebuild`, `add` and `remove`
put_documents : List ToolDocument → Dict ToolDocument → Dict ToolDocument
put_documents [] docs = docs
put_documents (d ∷ ds) docs = put_documents ds (put docs d.name d)

unfoldable rebuild : List ToolDocument → Dict ToolDocument
unfolding put_documents
rebuild documents = put_documents documents []

unfoldable pub add : Dict ToolDocument → ToolDocument → Dict ToolDocument
add docs d = put docs d.name d

unfoldable pub remove : Dict ToolDocument → String → Dict ToolDocument
remove docs name = pop docs name

-- `risk_filter`: no risks given, or an empty list of them, is no filter.
unfoldable pub risk_passes : Option (List String) → String → Bool
risk_passes none risk = true
risk_passes (some []) risk = true
risk_passes (some (r ∷ rs)) risk = contains (r ∷ rs) risk

-- The characters from U+4E00 to U+9FFF, each as a text
unfoldable pub cjk : String → List String
cjk String.[] = []
cjk (String.◌∷◌ c s) =
    let rest = cjk s in
    if leb 19968 (code c) && leb (code c) 40959 then String.◌∷◌ c String.[] ∷ rest else rest

unfoldable pub bigrams : List String → List String
bigrams [] = []
bigrams (c ∷ []) = []
bigrams (c ∷ d ∷ cs) = str_append c d ∷ bigrams (d ∷ cs)

-- A set by its elements, each once.
unfoldable pub distinct : List String → List String → List String
distinct seen [] = []
distinct seen (x ∷ xs) =
    let rest = distinct (if contains seen x then seen else x ∷ seen) xs in
    if contains seen x then rest else x ∷ rest

abbrev pub hint_of : Option String → String
hint_of none = ""
hint_of (some h) = h

abbrev pub first_or : Option Found → List Found → List Found
first_or none found = found
first_or (some r) found = r ∷ []

-- What the source uses of `str` and `re`: `lower`, `split` at white space, the split into CJK and
-- other segments, the split of a name at "_", `x in s` on texts, the first 120 characters of a
-- text, and the order of texts.
pub record TextLib : Type 0 where
  pub lower : String → String
  pub words : String → List String
  pub segments : String → List String
  pub parts : String → List String
  pub within : String → String → Bool
  pub start : String → String
  pub before : String → String → Bool

module _ (lib : TextLib) where
  -- `_doc_to_result`
  unfoldable pub doc_to_result : ToolDocument → List String → Found
  doc_to_result d why = record {
    name = d.name;
    summary = lib.start d.description;
    why_matched = why;
    risk = d.risk;
    always_on = d.always_on;
  }

  -- `_default_normalize`
  unfoldable pub default_normalize : String → List String
  unfolding bigrams
  default_normalize query =
      let query_lower = strip (lib.lower query) in
      let chars = cjk query_lower in
      keep truthy (
        distinct [] (
          query_lower ∷ lib.words query_lower
          ++ keep truthy (map strip (lib.segments query_lower))
          ++ bigrams chars
          ++ chars))

  abbrev pub name_parts : ToolDocument → List String
  name_parts d = keep truthy (lib.parts (lib.lower d.name))

  -- What one keyword adds to the score.
  unfoldable pub score_keyword : ToolDocument → String → ℕ
  score_keyword d kw =
      let parts = name_parts d in
      let hint = lib.lower (hint_of d.search_hint) in
      let is_mcp = str_eq d.source_type "mcp" in
      (if contains parts kw
        then (if is_mcp then 12 else 10)
        else (if any (λ part. lib.within kw part || lib.within part kw) parts
            then (if is_mcp then 6 else 5)
            else (if lib.within kw (lib.lower d.name) then 3 else 0)))
      + (if truthy hint && lib.within kw hint then 4 else 0)
      + (if lib.within kw (lib.lower d.description) then 2 else 0)

  -- `_score`
  unfoldable pub score : ToolDocument → List String → ℕ
  score d [] = 0
  score d (kw ∷ kws) = score_keyword d kw + score d kws

  unfoldable pub reasons_of : ToolDocument → String → List String
  reasons_of d kw =
      let parts = name_parts d in
      let hint = lib.lower (hint_of d.search_hint) in
      (if contains parts kw
        then str_append "名称精确:" kw ∷ []
        else (if any (λ part. lib.within kw part || lib.within part kw) parts
            then str_append "名称部分:" kw ∷ []
            else (if lib.within kw (lib.lower d.name) then str_append "名称:" kw ∷ [] else [])))
      ++ (if truthy hint && lib.within kw hint then str_append "提示:" kw ∷ [] else [])
      ++ (if lib.within kw (lib.lower d.description) then str_append "描述:" kw ∷ [] else [])

  all_reasons : ToolDocument → List String → List String
  all_reasons d [] = []
  all_reasons d (kw ∷ kws) = reasons_of d kw ++ all_reasons d kws

  -- `_explain`
  unfoldable pub explain : ToolDocument → List String → List String
  unfolding all_reasons
  explain d kws = distinct [] (all_reasons d kws)

  -- `score` descending, then the name
  unfoldable pub ranks_before : ℕ × Found → ℕ × Found → Bool
  ranks_before (m, a) (n, b) = if m == n then lib.before a.name b.name else ltb n m

  -- The loop over the documents
  unfoldable pub scan :
      Option (List String) → List String → List String → Dict ToolDocument → List (ℕ × Found)
  scan risks skip kws [] = []
  scan risks skip kws ((name, d) ∷ docs) =
      let rest = scan risks skip kws docs in
      if contains skip name || not (risk_passes risks d.risk) || not (ltb 0 (score d kws))
      then rest
      else (score d kws, doc_to_result d (explain d kws)) ∷ rest

  unfoldable pub by_keywords :
      Dict ToolDocument → ℕ → Option (List String) → List String → List String → List Found
  unfolding scan ranks_before
  by_keywords docs top_k risks skip [] = []
  by_keywords docs top_k risks skip (kw ∷ kws) =
      map (λ (e : ℕ × Found). e.1)
        (take top_k (sort ranks_before (scan risks skip (kw ∷ kws) docs)))

  -- The exact name of a tool, the document under it
  unfoldable pub exact :
      Option ToolDocument → Option (List String) → List String → String → Option Found
  exact none risks skip query = none
  exact (some d) risks skip query =
      if not (contains skip query) && risk_passes risks d.risk
      then some (doc_to_result d ("名称:精确匹配" ∷ []))
      else none

  -- `search`
  unfoldable pub search_docs :
      Dict ToolDocument → String → ℕ → Option (List String) → List String → List Found
  unfolding exact by_keywords
  search_docs docs query top_k risks skip =
      first_or (exact (get docs (strip query)) risks skip (strip query))
        (by_keywords docs top_k risks skip (default_normalize query))
