-- ===== src/Memory/Dedup.antt =====
-- memory2/dedup_decider.py: whether a candidate memory is written, and what becomes of the old
-- ones that are like it.
--
-- The store's vector search, the embedder, and the model behind the provider are parameters; so
-- is `str.lower`. The JSON reply is taken apart into a `Payload` by `json_repair` and `dict.get`.
pub mod Actions
pub mod Verdicts
pub mod Consistency
use Prim.Native.String.{◌++◌ as str_append}
use minicode_agent_runtime.Prelude.{
  ℕ, suc, ◌-◌, ◌==◌, String, Bool, true, false, not, ◌&&◌, ◌||◌, Option, none, some, List, [], ◌∷◌,
  ◌++◌, map, truthy, strip, strip_by, str_eq, contains, leb, ltb, length, get_elem?, take, keep,
  any, if◌then◌else◌,
}
use minicode_agent_runtime.Prelude.Dict.{Dict, get, put, pop, has}

pub data DedupDecision : Type 0 where
  skip create nothing : DedupDecision

pub data MemoryAction : Type 0 where
  merge delete : MemoryAction

abbrev pub same_action : MemoryAction → MemoryAction → Bool
same_action merge merge = true
same_action delete delete = true
same_action _ _ = false

pub record ExistingAction : Type 0 where
  pub item_id : String
  pub summary : String
  pub action : MemoryAction
  pub reason : String

-- An old memory that is like the candidate: `item["id"]`, `item.get("summary", "")`.
pub record SimilarItem : Type 0 where
  pub id : String
  pub summary : String

-- `entry.get("index")`, where it is an int.
pub data Index : Type 0 where
  at : ℕ → Index
  negative : ℕ → Index

-- An entry of the reply's list. `other` is one that is no dict; an id that is no text names none.
pub data Entry : Type 0 where
  other : Entry
  dict : (decide id : String) → (index : Option Index) → (reason : String) → Entry

-- The reply: its texts, and its list if it has one.
pub record Payload : Type 0 where
  pub decision : String
  pub reason : String
  pub list : Option (List Entry)

pub record Verdict : Type 0 where
  pub decision : DedupDecision
  pub reason : String
  pub actions : List ExistingAction

-- `{item["id"]: item for item in similar}`: of two items with one id the later counts.
unfoldable pub id_to_item : List SimilarItem → Dict SimilarItem → Dict SimilarItem
id_to_item [] d = d
id_to_item (item ∷ items) d = id_to_item items (put d item.id item)

-- The fallback by a position that counts from 1, or else from 0.
unfoldable pub item_at : List SimilarItem → Option Index → Option SimilarItem
item_at similar none = none
item_at similar (some (negative n)) = none
item_at similar (some (at n)) =
    get_elem? similar (if leb 1 n && leb n (length similar) then n - 1 else n)

unfoldable pub resolve : List SimilarItem → String → Option Index → Option SimilarItem
unfolding id_to_item item_at
resolve similar id index = elim (get (id_to_item similar []) id) [
  | some item ↦ some item
  | none ↦ item_at similar index
]

-- `actions` and `seen`, while the loop runs.
pub record Progress : Type 0 where
  pub actions : List ExistingAction
  pub seen : Dict MemoryAction

abbrev pub start : Progress
start = record { actions = []; seen = [] }

-- The end of the loop's body, for an item and what was seen for it before.
unfoldable pub settle :
    SimilarItem → MemoryAction → String → Option MemoryAction → Progress → Progress
settle item action reason none p = record {
  actions =
      p.actions
      ++ record { item_id = item.id; summary = item.summary; action = action; reason = reason }
        ∷ [];
  seen = put p.seen item.id action;
}
settle item action reason (some before) p = if same_action before action then p else record {
  actions = keep (λ a. not (str_eq a.item_id item.id)) p.actions;
  seen = pop p.seen item.id;
}

module _ (lower : String → String) where
  -- `str(...).lower().strip()`
  abbrev pub normal : String → String
  normal s = strip (lower s)

  unfoldable pub action_of : String → Option MemoryAction
  action_of decide =
      if str_eq (normal decide) "merge"
      then some merge
      else if str_eq (normal decide) "delete"
      then some delete
      else none

  take_entry : Option MemoryAction → Option SimilarItem → String → Progress → Progress
  take_entry none item reason p = p
  take_entry (some action) none reason p = p
  take_entry (some action) (some item) reason p = settle item action reason (get p.seen item.id) p

  -- The loop's body.
  unfoldable pub step : List SimilarItem → Entry → Progress → Progress
  unfolding take_entry
  step similar other p = p
  step similar (dict decide id index reason) p =
      take_entry (action_of decide) (resolve similar id index) reason p

  unfoldable pub collect : List SimilarItem → List Entry → Progress → Progress
  collect similar [] p = p
  collect similar (entry ∷ entries) p = collect similar entries (step similar entry p)

  unfoldable pub decision_of : String → DedupDecision
  decision_of s =
      if str_eq (normal s) "skip"
      then skip
      else if str_eq (normal s) "create"
      then create
      else if str_eq (normal s) "none"
      then nothing
      else if str_eq (normal s) "merge"
      then nothing
      else create

  -- The entries, with the old form of a merge that has no list.
  unfoldable pub entries_of : Payload → List SimilarItem → List Entry
  entries_of data_ [] = elim data_.list [ none ↦ [] | some entries ↦ entries ]
  entries_of data_ (first ∷ _) =
      let given : List Entry = elim data_.list [ none ↦ [] | some entries ↦ entries ] in
      elim given [
        | [] ↦
            if str_eq (normal data_.decision) "merge"
            then dict "merge" first.id none "legacy" ∷ []
            else []
        | e ∷ es ↦ e ∷ es
      ]

  unfoldable pub reason_of : Payload → List SimilarItem → String
  reason_of data_ similar =
      let empty : Bool = elim data_.list [ none ↦ true | some [] ↦ true | some (_ ∷ _) ↦ false ] in
      let found : Bool = elim similar [ [] ↦ false | _ ∷ _ ↦ true ] in
      if str_eq (normal data_.decision) "merge" && empty && found && not (truthy data_.reason)
      then "legacy merge mapped to none"
      else data_.reason

unfoldable pub is_merge : ExistingAction → Bool
is_merge a = same_action a.action merge

unfoldable pub is_delete : ExistingAction → Bool
is_delete a = same_action a.action delete

-- `(reason + " | normalized:create+merge->none").strip(" |")`
unfoldable pub normalized_reason : String → String
normalized_reason reason =
    strip_by (λ c. c == b' ' || c == b'|') (str_append reason " | normalized:create+merge->none")

-- The last guard: more than one merge makes the verdict a skip.
one_merge : String → List ExistingAction → Verdict
one_merge reason actions =
    if ltb 1 (length (keep is_merge actions))
    then record { decision = skip; reason = str_append reason " | multi-merge->skip"; actions = [] }
    else record { decision = nothing; reason = reason; actions = actions }

-- The code behind the loop, for the decision that the reply names.
unfoldable pub conclude : DedupDecision → String → List ExistingAction → Verdict
unfolding is_merge is_delete one_merge
conclude skip reason actions = record { decision = skip; reason = reason; actions = [] }
conclude create reason actions =
    if any is_merge actions
    then one_merge (normalized_reason reason) actions
    else record { decision = create; reason = reason; actions = keep is_delete actions }
conclude nothing reason actions = one_merge reason actions

-- `_parse_payload`
unfoldable pub parse_payload : (String → String) → Payload → List SimilarItem → Verdict
parse_payload lower data_ similar =
    conclude (decision_of lower data_.decision) (reason_of lower data_ similar)
      (collect lower similar (entries_of lower data_ similar) start).actions

-- What `_llm_decide` gets from the model: an exception, a reply that is no dict, or a dict.
pub data Reply : Type 0 where
  failed : String → Reply
  no_dict : Reply
  payload : Payload → Reply

-- `_llm_decide`
unfoldable pub llm_decide : (String → String) → Reply → List SimilarItem → Verdict
llm_decide lower (failed e) similar = record {
  decision = create;
  reason = str_append "llm failed: " e;
  actions = [];
}
llm_decide lower no_dict similar = record {
  decision = create;
  reason = "invalid_llm_payload";
  actions = [];
}
llm_decide lower (payload data_) similar = parse_payload lower data_ similar

-- The batch loop of `_find_similar`; `meets` is the test of the cosine against the threshold.
unfoldable pub find_batch :
    {V : Type 0} → (V → Bool) → List String → List (V × SimilarItem) → List SimilarItem
find_batch meets seen_ids [] = []
find_batch meets seen_ids ((vec, ctx) ∷ batch) =
    let passed = find_batch meets seen_ids batch in
    let taken = find_batch meets (ctx.id ∷ seen_ids) batch in
    if contains seen_ids ctx.id then passed else if meets vec then ctx ∷ taken else passed

-- `_find_similar`: `db_results` are those of the vector search.
unfoldable pub find_similar :
    {V : Type 0} → (V → Bool) → List SimilarItem → List (V × SimilarItem) → List SimilarItem
unfolding find_batch
find_similar meets db_results batch =
    take 5 (db_results ++ find_batch meets (map (λ (i : SimilarItem). i.id) db_results) batch)

-- The rest of `decide`, behind the search.
answer : (String → String) → (List SimilarItem → Reply) → List SimilarItem → Verdict
answer lower ask [] = record { decision = create; reason = "no similar found"; actions = [] }
answer lower ask (i ∷ is) = llm_decide lower (ask (i ∷ is)) (i ∷ is)

-- `decide`, for the results of the searches and the model's reply to the similar items.
unfoldable pub decide :
    {V : Type 0}
    → (String → String)
    → (V → Bool)
    → List SimilarItem
    → List (V × SimilarItem)
    → (List SimilarItem → Reply)
    → Verdict
unfolding find_similar answer llm_decide
decide lower meets db_results batch ask = answer lower ask (find_similar meets db_results batch)
