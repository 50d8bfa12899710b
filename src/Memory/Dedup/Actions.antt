-- ===== src/Memory/Dedup/Actions.antt =====
-- The actions that `_parse_payload` of memory2/dedup_decider.py collects from the reply's list.
use minicode_agent_runtime.Prelude.{
  ℕ, String, true, false, not, ◌≡◌, refl, Option, none, some, List, [], ◌∷◌, ◌++◌, contains,
  Distinct, snoc-Distinct, keep, str_eq, eq_iff, eq_refl, arith, Bool-cases, inl, inr,
  if◌then◌else◌, ap, Option-cases, All, ◌∙◌,
}
use minicode_agent_runtime.Prelude.Dict.{Dict, get, put, has, get-put, get-pop, All-get, All-put}
use minicode_agent_runtime.Memory.Dedup.{
  MemoryAction, same_action, ExistingAction, SimilarItem, Index, Entry, other, dict, Progress,
  settle, action_of, resolve, take_entry, step, collect, item_at, id_to_item, negative, get_elem?,
  suc, at,
}
use Prim.Native.Nat.{zero}

abbrev pub ids : List ExistingAction → List String
ids [] = []
ids (a ∷ acts) = a.item_id ∷ ids acts

-- What was seen are the items of the actions, and no item has two actions.
pub record IsTracked (p : Progress) : Type 0 where
  pub seen : (x : String) → has p.seen x ≡ contains (ids p.actions) x
  pub once : Distinct (ids p.actions)

contains-ids-append :
    (x : String) (acts : List ExistingAction) (a : ExistingAction)
    → contains (ids (acts ++ a ∷ [])) x
      ≡ (if str_eq a.item_id x then true else contains (ids acts) x)
contains-ids-append x [] a = ground arith
contains-ids-append x (b ∷ acts) a = ground (arith, contains-ids-append x acts a)

ids-snoc :
    (acts : List ExistingAction) (a : ExistingAction)
    → ids (acts ++ a ∷ []) ≡ ids acts ++ a.item_id ∷ []
ids-snoc [] a = refl
ids-snoc (b ∷ acts) a = ap (◌∷◌ b.item_id) (ids-snoc acts a)

abbrev without : String → List ExistingAction → List ExistingAction
without id acts = keep (λ a. not (str_eq a.item_id id)) acts

contains-ids-without :
    (x id : String) (acts : List ExistingAction)
    → contains (ids (without id acts)) x ≡ (if str_eq id x then false else contains (ids acts) x)
contains-ids-without x id [] = ground arith
contains-ids-without x id (a ∷ acts) =
    ground
      (arith, contains-ids-without x id acts, eq_iff a.item_id id, eq_iff a.item_id x, eq_iff id x)

without-Distinct :
    (id : String) (acts : List ExistingAction)
    → Distinct (ids acts)
    → Distinct (ids (without id acts))
without-Distinct id [] h = tt
without-Distinct id (a ∷ acts) h = elim (Bool-cases (str_eq a.item_id id)) [
  | inl e ↦ rw e (without-Distinct id acts h.1)
  | inr e ↦
      rw e (ground (arith, contains-ids-without a.item_id id acts), without-Distinct id acts h.1)
]

settle-IsTracked :
    (item : SimilarItem) (action : MemoryAction) (reason : String) (before : Option MemoryAction)
    (p : Progress)
    → get p.seen item.id ≡ before
    → IsTracked p
    → IsTracked (settle item action reason before p)
unfolding settle
settle-IsTracked item action reason none p e h =
    let new : ExistingAction = record {
      item_id = item.id;
      summary = item.summary;
      action = action;
      reason = reason;
    } in
    record {
      seen = λ x.
          ground
            (arith, h.seen x, get-put p.seen item.id x action, contains-ids-append x p.actions new);
      once =
          rw (ids-snoc p.actions new)
            (snoc-Distinct item.id (ids p.actions) (ground (arith, h.seen item.id)) h.once);
    }
settle-IsTracked item action reason (some before) p e h =
    elim (Bool-cases (same_action before action)) [
      | inl same ↦ rw same h
      | inr differs ↦ rw differs (record {
        seen = λ x.
            ground
              (arith, h.seen x, get-pop p.seen item.id x, contains-ids-without x item.id p.actions);
        once = without-Distinct item.id p.actions h.once;
      })
    ]

module _ (lower : String → String) (similar : List SimilarItem) where
  take_entry-IsTracked :
      (action : Option MemoryAction) (item : Option SimilarItem) (reason : String) (p : Progress)
      → IsTracked p
      → IsTracked (take_entry lower action item reason p)
  unfolding take_entry
  take_entry-IsTracked none item reason p h = h
  take_entry-IsTracked (some action) none reason p h = h
  take_entry-IsTracked (some action) (some item) reason p h =
      settle-IsTracked item action reason (get p.seen item.id) p refl h

  step-IsTracked :
      (entry : Entry) (p : Progress) → IsTracked p → IsTracked (step lower similar entry p)
  unfolding step
  step-IsTracked other p h = h
  step-IsTracked (dict decide id index reason) p h =
      take_entry-IsTracked (action_of lower decide) (resolve similar id index) reason p h

  pub collect-IsTracked :
      (entries : List Entry) (p : Progress)
      → IsTracked p
      → IsTracked (collect lower similar entries p)
  unfolding collect
  collect-IsTracked [] p h = h
  collect-IsTracked (entry ∷ entries) p h =
      collect-IsTracked entries (step lower similar entry p) (step-IsTracked entry p h)

-- Every action is about one of the similar items.
abbrev pub sids : List SimilarItem → List String
sids [] = []
sids (i ∷ is) = i.id ∷ sids is

abbrev pub AllKnown : List SimilarItem → List ExistingAction → Type 0
AllKnown similar acts = All (λ a. contains (sids similar) a.item_id ≡ true) acts

abbrev pub Holds : List SimilarItem → SimilarItem → Type 0
Holds similar item = contains (sids similar) item.id ≡ true

id_to_item-Holds :
    (all items : List SimilarItem) (d : Dict SimilarItem)
    → All (Holds all) items
    → All (λ e. Holds all e.1) d
    → All (λ e. Holds all e.1) (id_to_item items d)
unfolding id_to_item
id_to_item-Holds all [] d h k = k
id_to_item-Holds all (item ∷ items) d h k =
    id_to_item-Holds all items (put d item.id item) h.1
      (All-put (λ e. Holds all e.1) d item.id item (λ j e. h.0) k)

All-Holds_weaken :
    (item : SimilarItem) (all items : List SimilarItem)
    → All (Holds all) items
    → All (Holds (item ∷ all)) items
All-Holds_weaken item all [] h = tt
All-Holds_weaken item all (i ∷ items) h = (ground arith, All-Holds_weaken item all items h.1)

All-Holds : (similar : List SimilarItem) → All (Holds similar) similar
All-Holds [] = tt
All-Holds (item ∷ similar) =
    (rw (eq_refl item.id), All-Holds_weaken item similar similar (All-Holds similar))

get_elem?-Holds :
    (all similar : List SimilarItem) (n : ℕ) (item : SimilarItem)
    → All (Holds all) similar
    → get_elem? similar n ≡ some item
    → Holds all item
get_elem?-Holds all [] n item h e = absurd (cc e)
get_elem?-Holds all (i ∷ similar) zero item h e = ground arith
get_elem?-Holds all (i ∷ similar) (suc n) item h e = get_elem?-Holds all similar n item h.1 e

item_at-Holds :
    (similar : List SimilarItem) (index : Option Index) (item : SimilarItem)
    → item_at similar index ≡ some item
    → Holds similar item
unfolding item_at
item_at-Holds similar none item e = absurd (cc e)
item_at-Holds similar (some (negative n)) item e = absurd (cc e)
item_at-Holds similar (some (at n)) item e =
    get_elem?-Holds similar similar _ item (All-Holds similar) e

pub resolve-Holds :
    (similar : List SimilarItem) (id : String) (index : Option Index) (item : SimilarItem)
    → resolve similar id index ≡ some item
    → Holds similar item
unfolding resolve
resolve-Holds similar id index item e = elim (Option-cases (get (id_to_item similar []) id)) [
  | inl q ↦ item_at-Holds similar index item (rw (q, resolve) at e)
  | inr (found, q) ↦
      let (j, eq, h) =
        All-get (λ e. Holds similar e.1) (id_to_item similar []) id item (q ∙ rw (q, resolve) at e)
          (id_to_item-Holds similar similar [] (All-Holds similar) tt) in
      h
]
