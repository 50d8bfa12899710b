-- ===== src/Memory/Dedup/Consistency.antt =====
-- The rules that a verdict of memory2/dedup_decider.py keeps, whatever the model replies.
use minicode_agent_runtime.Prelude.{
  ◌≤◌, String, Bool, true, ◌≡◌, refl, List, [], ◌∷◌, length, keep, any, All, keep-All, ltb, ltb→le,
  Bool-cases, inl, inr,
}
use minicode_agent_runtime.Memory.Dedup.{
  DedupDecision, skip, create, nothing, ExistingAction, SimilarItem, Verdict, is_merge, is_delete,
  one_merge, conclude, decision_of, parse_payload, Reply, failed, no_dict, payload, llm_decide,
  find_similar, decide, answer,
}

-- A skip has no action, a creation only deletes, and at most one old memory is merged.
abbrev pub Allows : DedupDecision → List ExistingAction → Type 0
Allows skip actions = actions ≡ []
Allows create actions = All (λ a. is_delete a ≡ true) actions
Allows nothing actions = length (keep is_merge actions) ≤ 1

abbrev pub IsConsistent : Verdict → Type 0
IsConsistent v = Allows v.decision v.actions

one_merge-IsConsistent :
    (reason : String) (actions : List ExistingAction) → IsConsistent (one_merge reason actions)
unfolding one_merge
one_merge-IsConsistent reason actions = elim (Bool-cases (ltb 1 (length (keep is_merge actions)))) [
  | inl e ↦ rw e refl
  | inr e ↦ rw e (ltb→le 1 (length (keep is_merge actions)) e)
]

conclude-IsConsistent :
    (d : DedupDecision) (reason : String) (actions : List ExistingAction)
    → IsConsistent (conclude d reason actions)
unfolding conclude
conclude-IsConsistent skip reason actions = refl
conclude-IsConsistent create reason actions = elim (Bool-cases (any is_merge actions)) [
  | inl e ↦ rw e (one_merge-IsConsistent _ actions)
  | inr e ↦ rw e (keep-All is_delete actions)
]
conclude-IsConsistent nothing reason actions = one_merge-IsConsistent reason actions

llm_decide-IsConsistent :
    (lower : String → String) (reply : Reply) (similar : List SimilarItem)
    → IsConsistent (llm_decide lower reply similar)
unfolding llm_decide parse_payload
llm_decide-IsConsistent lower (failed e) similar = tt
llm_decide-IsConsistent lower no_dict similar = tt
llm_decide-IsConsistent lower (payload data_) similar =
    conclude-IsConsistent (decision_of lower data_.decision) _ _

answer-IsConsistent :
    (lower : String → String) (ask : List SimilarItem → Reply) (similar : List SimilarItem)
    → IsConsistent (answer lower ask similar)
unfolding answer
answer-IsConsistent lower ask [] = tt
answer-IsConsistent lower ask (i ∷ is) = llm_decide-IsConsistent lower (ask (i ∷ is)) (i ∷ is)

-- Whatever the model replies, decide gives a verdict that keeps the rules: a skip has no action, a
-- creation has only deletions, and a verdict that creates nothing merges at most one old memory.
pub decide-IsConsistent :
    {V : Type 0} (lower : String → String) (meets : V → Bool) (db_results : List SimilarItem)
    (batch : List (V × SimilarItem)) (ask : List SimilarItem → Reply)
    → IsConsistent (decide lower meets db_results batch ask)
unfolding decide
decide-IsConsistent lower meets db_results batch ask =
    answer-IsConsistent lower ask (find_similar meets db_results batch)
