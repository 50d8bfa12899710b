-- ===== src/Tests/Deduplication.antt =====
-- Memory deduplication: samples and examples for memory2/dedup_decider.py.
use minicode_agent_runtime.Prelude.{
  String, ℕ, ◌≡◌, refl, none, some, List, [], ◌∷◌, strip, strip_by, Bool, leb,
}
use minicode_agent_runtime.Prelude.Dict.{get, put}
use minicode_agent_runtime.Memory.Dedup.{
  merge, delete, skip, SimilarItem, dict, other, at, Payload, payload, Reply, action_of, resolve,
  collect, step, settle, parse_payload, conclude, decision_of, entries_of, reason_of, decide,
  is_merge, normalized_reason,
}
use minicode_agent_runtime.Memory.Dedup.Consistency.{IsConsistent, decide-IsConsistent}
use minicode_agent_runtime.Memory.Dedup.Verdicts.{IsSound, parse_payload-IsSound}

-- `str.lower` on texts that are in lower case.
abbrev lowered : String → String
lowered s = s

abbrev tea : SimilarItem
tea = record { id = "m1"; summary = "likes tea" }

abbrev coffee : SimilarItem
coffee = record { id = "m2"; summary = "likes coffee" }

abbrev known : List SimilarItem
known = tea ∷ coffee ∷ []

-- Both by id and by position; the second merge makes the verdict a skip.
abbrev two_merges : Payload
two_merges = record {
  decision = " create";
  reason = "r";
  list = some (dict "merge" "m1" none "a" ∷ other ∷ dict "merge" "?" (some (at 2)) "b" ∷ []);
}

two_merges_skip : parse_payload lowered two_merges known ≡ record {
  decision = skip;
  reason = "r | normalized:create+merge->none | multi-merge->skip";
  actions = [];
}
unfolding parse_payload conclude decision_of entries_of reason_of collect step settle action_of
    resolve get put strip is_merge normalized_reason strip_by
two_merges_skip = refl

abbrev within : ℕ → Bool
within score = leb 90 score

abbrev ask : List SimilarItem → Reply
ask similar = payload two_merges

decide-IsConsistent_example :
    IsConsistent (decide lowered within (tea ∷ []) ((95, coffee) ∷ []) ask)
decide-IsConsistent_example = decide-IsConsistent lowered within (tea ∷ []) ((95, coffee) ∷ []) ask

parse_payload-IsSound_example : IsSound known (parse_payload lowered two_merges known).actions
parse_payload-IsSound_example = parse_payload-IsSound lowered known two_merges

actions_named :
    (action_of lowered "merge" ≡ some merge) × (action_of lowered "delete" ≡ some delete)
unfolding action_of strip
actions_named = (refl, refl)

tea_found : resolve known "m1" none ≡ some tea
unfolding resolve get put
tea_found = refl
