-- ===== src/Agent/Consolidation/Runtime.antt =====
-- agent/looping/ports.py and consolidation.py: `TurnScheduler`, which lets one consolidation of a
-- session run at a time, and `ConsolidationRuntime`, the manual one.
pub mod Exclusive
pub mod Released
use Prim.Native.String.{String}
use minicode_agent_runtime.Prelude.{
  ℕ, Bool, true, false, ◌-◌, ◌/◌, max, leb, if◌then◌else◌, List, [], ◌∷◌, none, some, ◌&&◌, not,
  length, keep, contains, str_eq,
}
use minicode_agent_runtime.Prelude.Dict.{has, put}
use minicode_agent_runtime.Session.{Session}
use minicode_agent_runtime.Session.Store.{Json}
use minicode_agent_runtime.Session.Manager.{SessionManager, get_or_create, save}
use minicode_agent_runtime.Agent.Consolidation.{select_consolidation_window}
use minicode_agent_runtime.Agent.Consolidation.Service.{consolidate}
use minicode_agent_runtime.Agent.Consolidation.Ports.{Ports, Work}

-- `consolidation_min_new_messages`
abbrev pub min_new_messages : ℕ → ℕ
min_new_messages keep_count = max 5 (keep_count / 2)

-- `_consolidating`, a set
abbrev pub Consolidating : Type 0
Consolidating = List String

-- `is_consolidating`
abbrev pub is_consolidating : Consolidating → String → Bool
is_consolidating set key = contains set key

-- `_consolidating.discard(key)`, of `mark_manual_end` and `_run_consolidation_bg`
unfoldable pub mark_end : String → Consolidating → Consolidating
mark_end key set = keep (λ (k : String). not (str_eq k key)) set

-- `mark_manual_start`: whether the key was free, and the set
unfoldable pub mark_manual_start : String → Consolidating → Bool × Consolidating
mark_manual_start key set = if contains set key then (false, set) else (true, key ∷ set)

-- `schedule_consolidation`: whether a task is created, and the set. `min` is at least 5, so that
-- the difference may stop at 0.
unfoldable pub schedule_consolidation :
    {Any : Type 0} → (keep_count : ℕ) → Session Any → String → Consolidating → Bool × Consolidating
schedule_consolidation keep_count session key set =
    let ready_count = length session.messages - keep_count - session.last_consolidated in
    if leb (min_new_messages keep_count) ready_count && not (contains set key)
    then (true, key ∷ set)
    else (false, set)

-- The state behind `ConsolidationRuntime`
pub record Runtime (Any Vectors : Type 0) : Type 0 where
  pub manager : SessionManager Any
  pub consolidating : Consolidating
  pub work : Work Vectors

-- What other coroutines do, also to the session that is held, while a manual consolidation awaits
-- the runner, and while `save_async` awaits the lock of the session. The runner's own steps are in
-- one piece before theirs.
pub record Others (Any Vectors : Type 0) : Type 0 where
  pub during_runner : Session Any → Runtime Any Vectors → Session Any × Runtime Any Vectors
  pub during_lock : Session Any → Runtime Any Vectors → Session Any × Runtime Any Vectors

-- How `wait_for_consolidation_idle` ends: the key is free, TimeoutError, or the other consolidation
-- runs on after all that is told of it
pub data Wait (Any Vectors : Type 0) : Type 0 where
  idle : Runtime Any Vectors → Wait Any Vectors
  timed_out : Runtime Any Vectors → Wait Any Vectors
  waiting : Runtime Any Vectors → Wait Any Vectors

-- `wait_for_consolidation_idle`; a poll is whether the deadline has passed, and the state after
-- the sleep that follows if it has not.
unfoldable pub wait_for_consolidation_idle :
    {Any Vectors : Type 0}
    → String
    → List (Bool × Runtime Any Vectors)
    → Runtime Any Vectors
    → Wait Any Vectors
wait_for_consolidation_idle key [] rt =
    if is_consolidating rt.consolidating key then waiting rt else idle rt
wait_for_consolidation_idle key ((late, rt') ∷ polls) rt =
    let rest = wait_for_consolidation_idle key polls rt' in
    if is_consolidating rt.consolidating key then (if late then timed_out rt else rest) else idle rt

-- What `trigger_memory_consolidation` returns, or the exception of the wait or of the saving
pub data Triggered : Type 0 where
  returned : Bool → Triggered
  raised_timeout : Triggered
  raised_saving : Triggered
  suspended : Triggered

-- The session that is held is the object of the cache, so that what is written to it is there.
abbrev with_session : {Any : Type 0} → Session Any → SessionManager Any → SessionManager Any
with_session session manager = record manager {
  cache =
      if has manager.cache session.key
      then put manager.cache session.key session
      else manager.cache;
}

module _ {Any Vectors : Type 0} (json : Json Any) (io : Ports Any Vectors)
    (others : Others Any Vectors) (keep_count : ℕ) where
  -- `consolidate_and_save`, with no facade: whether the saving ended without an exception
  unfoldable pub consolidate_and_save :
      (archive_all : Bool) (now : String)
      → Session Any
      → Runtime Any Vectors
      → Bool × Runtime Any Vectors
  unfolding consolidate
  consolidate_and_save archive_all now session rt =
      let (ended, session', work) = consolidate io keep_count archive_all session rt.work in
      let (held, rt') =
        others.during_runner session'
          (record rt { manager = with_session session' rt.manager; work = work }) in
      let (held', rt'') =
        others.during_lock held (record rt' { manager = with_session held rt'.manager }) in
      let (saved, manager) = save json now held' (with_session held' rt''.manager) in
      (elim saved [ none ↦ false | some s ↦ true ], record rt'' { manager = manager })

  abbrev release : String → Bool × Runtime Any Vectors → Triggered × Runtime Any Vectors
  release key (saved, rt) = (
    if saved then returned true else raised_saving,
    record rt { consolidating = mark_end key rt.consolidating },
  )

  -- Step 3, under the mark of the key
  unfoldable pub run_manual :
      String
      → (archive_all : Bool) (now : String) → Session Any
      → Runtime Any Vectors
      → Triggered × Runtime Any Vectors
  unfolding consolidate_and_save mark_manual_start mark_end
  run_manual key archive_all now session rt =
      let (free, set) = mark_manual_start key rt.consolidating in
      if free
      then release key
          (consolidate_and_save archive_all now session (record rt { consolidating = set }))
      else (returned false, rt)

  abbrev has_window : (archive_all : Bool) → Session Any → Bool
  has_window archive_all session =
      elim (select_consolidation_window keep_count (min_new_messages keep_count) archive_all
        session) [ none ↦ false | some w ↦ true ]

  abbrev after_wait :
      String
      → (archive_all : Bool) (now : String) → Wait Any Vectors
      → Triggered × Runtime Any Vectors
  after_wait key archive_all now (waiting rt) = (suspended, rt)
  after_wait key archive_all now (timed_out rt) = (raised_timeout, rt)
  after_wait key archive_all now (idle rt) =
      let (session, manager) = get_or_create json key now rt.manager in
      let rt' : Runtime Any Vectors = record rt { manager = manager } in
      if has_window archive_all session
      then run_manual key archive_all now session rt'
      else (returned true, rt')

  -- Steps 1 to 3, with the session that was opened
  unfoldable pub trigger_opened :
      String
      → (archive_all : Bool) (now : String) → List (Bool × Runtime Any Vectors)
      → Session Any × SessionManager Any
      → Runtime Any Vectors
      → Triggered × Runtime Any Vectors
  trigger_opened key archive_all now polls (session, manager) rt =
      let rt' : Runtime Any Vectors = record rt { manager = manager } in
      if not (has_window archive_all session)
      then (returned false, rt')
      else (if is_consolidating rt'.consolidating key
          then after_wait key archive_all now (wait_for_consolidation_idle key polls rt')
          else run_manual key archive_all now session rt')

  -- `trigger_memory_consolidation`
  unfoldable pub trigger_memory_consolidation :
      String
      → (archive_all : Bool) (now : String) → List (Bool × Runtime Any Vectors)
      → Runtime Any Vectors
      → Triggered × Runtime Any Vectors
  unfolding trigger_opened get_or_create
  trigger_memory_consolidation key archive_all now polls rt =
      trigger_opened key archive_all now polls (get_or_create json key now rt.manager) rt
