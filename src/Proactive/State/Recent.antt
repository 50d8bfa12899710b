-- ===== src/Proactive/State/Recent.antt =====
-- proactive_v2/state.py: the store as a client sees it, by the last mark of each item.
use minicode_agent_runtime.Prelude.{
  ℕ, String, Bool, true, false, ◌≤◌, if◌then◌else◌, List, [], ◌∷◌, Option, none, some, str_eq, not,
  ◌&&◌, ◌||◌, ◌≡◌, refl, ◌∙◌, arith, Bool-cases, inl, inr, All, max, ltb,
}
use minicode_agent_runtime.Proactive.State.{
  Mark, ProactiveState, SemanticEntry, find_mark, upsert_mark, is_older, recent, mark_all,
  dedupe_source_key, mark_items_seen, mark_delivery, mark_rejection_cooldown, mark_semantic_items,
  cleanup, mark_bg_context_main_send, mark_drift_run, mark_context_only_send, is_item_seen,
  empty_state,
}
use minicode_agent_runtime.Proactive.State.Tables.{
  OneRow, keep_at, find_mark-upsert_mark, upsert_mark-OneRow, keep-OneRow, find_mark-keep,
}

-- The calls that change the store
pub data Operation : Type 0 where
  seen : List (String × String) → Operation
  delivered : (session_key delivery_key : String) → Operation
  rejected : List (String × String) → ℕ → Operation
  semantic : List SemanticEntry → Operation
  cleaned : (seen_ttl delivery_ttl semantic_ttl rejection_ttl : ℕ) → Operation
  main_sent : Operation
  drifted : String → Operation
  context_only_sent : String → Operation

unfoldable pub step : Operation → (now : ℕ) → ProactiveState → ProactiveState
step (seen entries) now st = mark_items_seen entries now st
step (delivered session_key delivery_key) now st = mark_delivery session_key delivery_key now st
step (rejected entries hours) now st = mark_rejection_cooldown entries hours now st
step (semantic entries) now st = mark_semantic_items entries now st
step (cleaned s d m r) now st = cleanup s d m r now st
step main_sent now st = mark_bg_context_main_send now st
step (drifted session_key) now st = mark_drift_run session_key now st
step (context_only_sent session_key) now st = mark_context_only_send session_key now st

-- A history of calls with their instants, the oldest first
abbrev pub after_calls : List (ℕ × Operation) → ProactiveState → ProactiveState
after_calls [] st = st
after_calls ((at, op) ∷ ops) st = after_calls ops (step op at st)

abbrev pub names : List (String × String) → String → String → Bool
names [] o i = false
names ((source_key, item_id) ∷ entries) o i =
    (str_eq (dedupe_source_key source_key) o && str_eq item_id i) || names entries o i

-- The abstract view: the instant at which an item was marked last, which nothing else changes
abbrev pub last_seen_step : Operation → ℕ → String → String → Option ℕ → Option ℕ
last_seen_step (seen entries) at o i last = if names entries o i then some at else last
last_seen_step (delivered session_key delivery_key) at o i last = last
last_seen_step (rejected entries hours) at o i last = last
last_seen_step (semantic entries) at o i last = last
last_seen_step (cleaned s d m r) at o i last = last
last_seen_step main_sent at o i last = last
last_seen_step (drifted session_key) at o i last = last
last_seen_step (context_only_sent session_key) at o i last = last

abbrev pub last_seen : List (ℕ × Operation) → String → String → Option ℕ → Option ℕ
last_seen [] o i last = last
last_seen ((at, op) ∷ ops) o i last = last_seen ops o i (last_seen_step op at o i last)

find_mark-mark_all :
    (entries : List (String × String)) (at : ℕ) (ms : List Mark) (o i : String)
    → find_mark (mark_all entries at ms) o i
      ≡ (if names entries o i then some at else find_mark ms o i)
find_mark-mark_all [] at ms o i = refl
find_mark-mark_all ((s, t) ∷ entries) at ms o i =
    find_mark-mark_all entries at (upsert_mark ms (dedupe_source_key s) t at) o i
    ∙ rw (find_mark-upsert_mark ms (dedupe_source_key s) t o i at)
        (either_names (str_eq (dedupe_source_key s) o && str_eq t i) (names entries o i))
  where
    either_names :
        (b c : Bool)
        → (if c then some at else if b then some at else find_mark ms o i)
          ≡ (if b || c then some at else find_mark ms o i)
    either_names true true = refl
    either_names true false = refl
    either_names false c = refl

mark_all-OneRow :
    (entries : List (String × String)) (at : ℕ) (ms : List Mark)
    → OneRow ms
    → OneRow (mark_all entries at ms)
mark_all-OneRow [] at ms h = h
mark_all-OneRow ((s, t) ∷ entries) at ms h =
    mark_all-OneRow entries at (upsert_mark ms (dedupe_source_key s) t at)
      (upsert_mark-OneRow ms (dedupe_source_key s) t at h)

module _ (hours now : ℕ) where
  -- What a table holds of an item is its last mark, unless that is too old to count.
  abbrev Agrees : Option ℕ → Option ℕ → Type 0
  Agrees none none = Unit
  Agrees none (some at) = is_older at hours now ≡ true
  Agrees (some at) none = true ≡ false
  Agrees (some at) (some at') = at ≡ at'

  recent_of :
      (found last : Option ℕ) → Agrees found last → recent found hours now ≡ recent last hours now
  recent_of none none h = refl
  recent_of none (some at) h = rw h refl
  recent_of (some at) none h = absurd (cc h)
  recent_of (some at) (some at') h = rw h refl

  noted-Agrees :
      (b : Bool) (at : ℕ) (found last : Option ℕ)
      → Agrees found last
      → Agrees (if b then some at else found) (if b then some at else last)
  noted-Agrees true at found last h = refl
  noted-Agrees false at found last h = h

  keep_at-Agrees :
      (ttl at : ℕ) (found last : Option ℕ)
      → hours ≤ ttl
      → at ≤ now
      → Agrees found last
      → Agrees (keep_at (λ t. not (is_older t ttl at)) found) last
  keep_at-Agrees ttl at none last le before h = h
  keep_at-Agrees ttl at (some t) none le before h = absurd (cc h)
  keep_at-Agrees ttl at (some t) (some t') le before h = elim (Bool-cases (is_older t ttl at)) [
    | inl e ↦ rw e (older_later t t' ttl at le before h e)
    | inr e ↦ rw e h
  ]
    where
      older_later :
          (t t' ttl at : ℕ)
          → hours ≤ ttl
          → at ≤ now
          → t ≡ t'
          → is_older t ttl at ≡ true
          → is_older t' hours now ≡ true
      older_later t t' ttl at le before same e = ground (arith, le, before, same)

  -- Calls that are not later than now, and cleanups that keep what is asked for
  abbrev pub Timely : ℕ × Operation → Type 0
  Timely (at, cleaned s d m r) = (at ≤ now) × (hours ≤ max s 1)
  Timely (at, seen entries) = at ≤ now
  Timely (at, delivered session_key delivery_key) = at ≤ now
  Timely (at, rejected entries ttl) = at ≤ now
  Timely (at, semantic entries) = at ≤ now
  Timely (at, main_sent) = at ≤ now
  Timely (at, drifted session_key) = at ≤ now
  Timely (at, context_only_sent session_key) = at ≤ now

  -- A table of seen items without two rows for an item, in agreement with a last mark
  abbrev Holds : String → String → ProactiveState → Option ℕ → Type 0
  Holds o i st last = OneRow st.seen_items × Agrees (find_mark st.seen_items o i) last

  rejected-seen_items :
      (entries : List (String × String)) (ttl at : ℕ) (st : ProactiveState)
      → (step (rejected entries ttl) at st).seen_items ≡ st.seen_items
  unfolding step mark_rejection_cooldown
  rejected-seen_items entries ttl at st = elim (Bool-cases (ltb 0 ttl)) [
    | inl e ↦ rw e refl
    | inr e ↦ rw e refl
  ]

  step-Holds :
      (o i : String) (at : ℕ) (op : Operation) (st : ProactiveState) (last : Option ℕ)
      → Timely (at, op)
      → Holds o i st last
      → Holds o i (step op at st) (last_seen_step op at o i last)
  unfolding step mark_items_seen mark_delivery mark_semantic_items cleanup mark_bg_context_main_send
      mark_drift_run mark_context_only_send
  step-Holds o i at (seen entries) st last timely h = (
    mark_all-OneRow entries at st.seen_items h.0,
    rw (find_mark-mark_all entries at st.seen_items o i)
        (noted-Agrees (names entries o i) at (find_mark st.seen_items o i) last h.1),
  )
  step-Holds o i at (delivered session_key delivery_key) st last timely h = h
  step-Holds o i at (rejected entries ttl) st last timely h =
      rw (rejected-seen_items entries ttl at st) h
  step-Holds o i at (semantic entries) st last timely h = h
  step-Holds o i at (cleaned s d m r) st last timely h = (
    keep-OneRow (λ t. not (is_older t (max s 1) at)) st.seen_items h.0,
    rw (find_mark-keep (λ t. not (is_older t (max s 1) at)) st.seen_items o i h.0)
        (keep_at-Agrees (max s 1) at (find_mark st.seen_items o i) last timely.1 timely.0 h.1),
  )
  step-Holds o i at main_sent st last timely h = h
  step-Holds o i at (drifted session_key) st last timely h = h
  step-Holds o i at (context_only_sent session_key) st last timely h = h

  after_calls-Holds :
      (o i : String) (ops : List (ℕ × Operation)) (st : ProactiveState) (last : Option ℕ)
      → All Timely ops
      → Holds o i st last
      → Holds o i (after_calls ops st) (last_seen ops o i last)
  after_calls-Holds o i [] st last timely h = h
  after_calls-Holds o i ((at, op) ∷ ops) st last timely h =
      after_calls-Holds o i ops (step op at st) (last_seen_step op at o i last) timely.1
        (step-Holds o i at op st last timely.0 h)

-- After any history of calls to an empty store, none of them later than now, in which no cleanup
-- keeps seen items for less than the time that is asked for, is_item_seen tells just whether the
-- item was marked, and its last mark is not older than that time: cleanups are not noticed.
pub is_item_seen-last_seen :
    (ops : List (ℕ × Operation)) (source_key item_id : String) (ttl_hours now : ℕ)
    → All (Timely (max ttl_hours 1) now) ops
    → is_item_seen source_key item_id ttl_hours now (after_calls ops empty_state)
      ≡ recent (last_seen ops (dedupe_source_key source_key) item_id none) (max ttl_hours 1) now
unfolding is_item_seen
is_item_seen-last_seen ops source_key item_id ttl_hours now timely =
    let o = dedupe_source_key source_key in
    recent_of (max ttl_hours 1) now (find_mark (after_calls ops empty_state).seen_items o item_id)
      (last_seen ops o item_id none)
      (after_calls-Holds (max ttl_hours 1) now o item_id ops empty_state none timely (tt, tt)).1
