-- ===== src/Memory/Dedup/Verdicts.antt =====
-- The actions of a whole verdict of memory2/dedup_decider.py, and a conflict that is settled.
use minicode_agent_runtime.Prelude.{
  String, Bool, true, false, ◌≡◌, refl, Option, none, some, List, [], ◌∷◌, All-append, All-keep,
  keep, contains, Distinct, not, str_eq, eq_refl, arith, Bool-cases, inl, inr,
}
use minicode_agent_runtime.Prelude.Dict.{get, put, pop}
use minicode_agent_runtime.Memory.Dedup.{
  DedupDecision, skip, create, nothing, MemoryAction, same_action, ExistingAction, SimilarItem,
  Index, Entry, other, dict, Payload, Progress, start, settle, action_of, resolve, take_entry, step,
  collect, is_merge, is_delete, one_merge, conclude, decision_of, reason_of, entries_of,
  parse_payload, put, ltb, any, length, pop,
}
use minicode_agent_runtime.Memory.Dedup.Actions.{
  ids, IsTracked, collect-IsTracked, AllKnown, Holds, resolve-Holds, sids,
}

-- The actions are about similar items, each about another one.
abbrev pub IsSound : List SimilarItem → List ExistingAction → Type 0
IsSound similar acts = Distinct (ids acts) × AllKnown similar acts

contains-ids-keep :
    (p : ExistingAction → Bool) (acts : List ExistingAction) (x : String)
    → contains (ids acts) x ≡ false
    → contains (ids (keep p acts)) x ≡ false
contains-ids-keep p [] x h = refl
contains-ids-keep p (a ∷ acts) x h = ground (arith, contains-ids-keep p acts x)

keep-Distinct :
    (p : ExistingAction → Bool) (acts : List ExistingAction)
    → Distinct (ids acts)
    → Distinct (ids (keep p acts))
keep-Distinct p [] h = tt
keep-Distinct p (a ∷ acts) h = elim (Bool-cases (p a)) [
  | inl e ↦ rw e (contains-ids-keep p acts a.item_id h.0, keep-Distinct p acts h.1)
  | inr e ↦ rw e (keep-Distinct p acts h.1)
]

settle-AllKnown :
    (similar : List SimilarItem) (item : SimilarItem) (action : MemoryAction) (reason : String)
    (before : Option MemoryAction) (p : Progress)
    → Holds similar item
    → AllKnown similar p.actions
    → AllKnown similar (settle item action reason before p).actions
unfolding settle
settle-AllKnown similar item action reason none p k h =
    All-append (λ a. contains (sids similar) a.item_id ≡ true) p.actions _ h (k, tt)
settle-AllKnown similar item action reason (some before) p k h =
    elim (Bool-cases (same_action before action)) [
      | inl e ↦ rw e h
      | inr e ↦ rw e (
          All-keep (λ a. contains (sids similar) a.item_id ≡ true)
            (λ a. not (str_eq a.item_id item.id)) p.actions h)
    ]

one_merge-IsSound :
    (similar : List SimilarItem) (reason : String) (acts : List ExistingAction)
    → IsSound similar acts
    → IsSound similar (one_merge reason acts).actions
unfolding one_merge
one_merge-IsSound similar reason acts h = elim (Bool-cases (ltb 1 (length (keep is_merge acts)))) [
  | inl e ↦ rw e (tt, tt)
  | inr e ↦ rw e h
]

conclude-IsSound :
    (similar : List SimilarItem) (d : DedupDecision) (reason : String) (acts : List ExistingAction)
    → IsSound similar acts
    → IsSound similar (conclude d reason acts).actions
unfolding conclude
conclude-IsSound similar skip reason acts h = (tt, tt)
conclude-IsSound similar create reason acts h = elim (Bool-cases (any is_merge acts)) [
  | inl e ↦ rw e (one_merge-IsSound similar _ acts h)
  | inr e ↦ rw e (
    keep-Distinct is_delete acts h.0,
    All-keep (λ a. contains (sids similar) a.item_id ≡ true) is_delete acts h.1,
  )
]
conclude-IsSound similar nothing reason acts h = one_merge-IsSound similar reason acts h

start-IsTracked : IsTracked start
unfolding get
start-IsTracked = record { seen = λ x. refl; once = tt }

module _ (lower : String → String) (similar : List SimilarItem) where
  take_entry-AllKnown :
      (action : Option MemoryAction) (item : Option SimilarItem) (reason : String) (p : Progress)
      → ((i : SimilarItem) → item ≡ some i → Holds similar i)
      → AllKnown similar p.actions
      → AllKnown similar (take_entry lower action item reason p).actions
  unfolding take_entry
  take_entry-AllKnown none item reason p k h = h
  take_entry-AllKnown (some action) none reason p k h = h
  take_entry-AllKnown (some action) (some item) reason p k h =
      settle-AllKnown similar item action reason (get p.seen item.id) p (k item refl) h

  collect-AllKnown :
      (entries : List Entry) (p : Progress)
      → AllKnown similar p.actions
      → AllKnown similar (collect lower similar entries p).actions
  unfolding collect step
  collect-AllKnown [] p h = h
  collect-AllKnown (other ∷ entries) p h = collect-AllKnown entries p h
  collect-AllKnown (dict decide id index reason ∷ entries) p h = collect-AllKnown entries _ (
      take_entry-AllKnown (action_of lower decide) (resolve similar id index) reason p
        (resolve-Holds similar id index) h)

  -- Every action of a parsed reply is about one of the similar items, and no two actions of it are
  -- about the same item.
  pub parse_payload-IsSound :
      (data_ : Payload) → IsSound similar (parse_payload lower data_ similar).actions
  unfolding parse_payload
  parse_payload-IsSound data_ =
      let entries = entries_of lower data_ similar in
      conclude-IsSound similar (decision_of lower data_.decision) (reason_of lower data_ similar)
        (collect lower similar entries start).actions
        (
          (collect-IsTracked lower similar entries start start-IsTracked).once,
          collect-AllKnown entries start tt,
        )

  -- Of two entries that name one item with different actions neither stays, but a third entry for
  -- that item that follows them is accepted: with three such entries the item has the action of
  -- the last.
  pub collect-conflict :
      (item : SimilarItem) (a b c : MemoryAction) (d₁ d₂ d₃ id₁ id₂ id₃ r₁ r₂ r₃ : String)
      (i₁ i₂ i₃ : Option Index)
      → action_of lower d₁ ≡ some a
      → action_of lower d₂ ≡ some b
      → action_of lower d₃ ≡ some c
      → resolve similar id₁ i₁ ≡ some item
      → resolve similar id₂ i₂ ≡ some item
      → resolve similar id₃ i₃ ≡ some item
      → same_action a b ≡ false
      → (collect lower similar
          (dict d₁ id₁ i₁ r₁ ∷ dict d₂ id₂ i₂ r₂ ∷ dict d₃ id₃ i₃ r₃ ∷ [])
          start).actions
        ≡ record { item_id = item.id; summary = item.summary; action = c; reason = r₃ } ∷ []
  unfolding collect step take_entry settle get put pop
  collect-conflict item a b c d₁ d₂ d₃ id₁ id₂ id₃ r₁ r₂ r₃ i₁ i₂ i₃ ea eb ec e₁ e₂ e₃ ne =
      rw (ea, eb, ec, e₁, e₂, e₃) (rw (eq_refl item.id, ne) (rw (eq_refl item.id)))
