-- ===== src/Agent/Consolidation/Runtime/Released.antt =====
-- agent/looping/consolidation.py: the lock of a session after a manual consolidation.
use Prim.Native.String.{String}
use minicode_agent_runtime.Prelude.{
  ℕ, Bool, false, if◌then◌else◌, List, ◌∷◌, ◌≡◌, refl, ◌⊎◌, eq_refl, ◌&&◌, not, contains, str_eq,
  eq_iff, Bool-cases, inl, inr, arith, ◌∙◌,
}
use minicode_agent_runtime.Session.{Session}
use minicode_agent_runtime.Session.Store.{Json}
use minicode_agent_runtime.Session.Manager.{get_or_create}
use minicode_agent_runtime.Agent.Consolidation.Ports.{Ports}
use minicode_agent_runtime.Agent.Consolidation.Runtime.{
  Runtime, Others, Wait, idle, timed_out, waiting, Consolidating, mark_end, mark_manual_start,
  consolidate_and_save, run_manual, after_wait, has_window, wait_for_consolidation_idle,
  trigger_memory_consolidation, trigger_opened, SessionManager,
}
use minicode_agent_runtime.Agent.Consolidation.Runtime.Exclusive.{contains-keep}

-- A mark that is set on a free key and taken back leaves that key as it was, and every key whose
-- membership did not change in between.
mark_end-mark :
    (key k : String) (set later : Consolidating)
    → contains set key ≡ false
    → (k ≡ key) ⊎ (contains later k ≡ contains (key ∷ set) k)
    → contains (mark_end key later) k ≡ contains set k
unfolding mark_end
mark_end-mark key k set later free h = contains-keep key k later ∙ free_again
  where
    free_again : (contains later k && not (str_eq k key)) ≡ contains set k
    free_again = elim (Bool-cases (str_eq k key)) [
      | inl e ↦ rw e (let same : k ≡ key = (eq_iff k key).0 e in rw same (ground (arith, free)))
      | inr e ↦ elim h [
        | inl same ↦ absurd (cc (same, e, eq_refl key))
        | inr left ↦ rw left (ground (arith, e, eq_iff key k, eq_iff k key))
      ]
    ]

-- The other coroutines neither add a session to the set nor take it out while they run.
abbrev pub Leaves : {Any Vectors : Type 0} → String → Others Any Vectors → Type 0
Leaves k others =
    ((session : Session _) (rt : Runtime _ _)
      → contains (others.during_runner session rt).1.consolidating k ≡ contains rt.consolidating k)
    × ((session : Session _) (rt : Runtime _ _)
        → contains (others.during_lock session rt).1.consolidating k ≡ contains rt.consolidating k)

-- The states that a manual consolidation goes on from
abbrev pub seen : {Any Vectors : Type 0} → Wait Any Vectors → Runtime Any Vectors
seen (idle rt) = rt
seen (timed_out rt) = rt
seen (waiting rt) = rt

module _ {Any Vectors : Type 0} (json : Json Any) (io : Ports Any Vectors) (keep_count : ℕ)
    (others : Others Any Vectors) (key : String) (archive_all : Bool) (now : String) (k : String)
    (left : (k ≡ key) ⊎ Leaves k others) where
  consolidate_and_save-set :
      (session : Session Any) (rt : Runtime Any Vectors)
      → (k ≡ key)
        ⊎ (contains
              (consolidate_and_save json io others keep_count archive_all now session
                rt).1.consolidating
              k
            ≡ contains rt.consolidating k)
  unfolding consolidate_and_save
  consolidate_and_save-set session rt = elim left [
    | inl e ↦ inl e
    | inr h ↦ inr (h.1 _ _ ∙ h.0 _ _)
  ]

  run_manual_free :
      (session : Session Any) (rt : Runtime Any Vectors)
      → contains
          (run_manual json io others keep_count key archive_all now session rt).1.consolidating
          k
        ≡ contains rt.consolidating k
  unfolding run_manual mark_manual_start
  run_manual_free session rt = elim (Bool-cases (contains rt.consolidating key)) [
    | inl e ↦ rw e refl
    | inr e ↦
        let marked : Runtime Any Vectors = record rt { consolidating = key ∷ rt.consolidating } in
        let later =
          (consolidate_and_save json io others keep_count archive_all now session marked).1 in
        rw e (
          mark_end-mark key k rt.consolidating later.consolidating e
            (consolidate_and_save-set session marked))
  ]

  after_wait_free :
      (w : Wait Any Vectors)
      → contains (after_wait json io others keep_count key archive_all now w).1.consolidating k
        ≡ contains (seen w).consolidating k
  after_wait_free (waiting rt) = refl
  after_wait_free (timed_out rt) = refl
  after_wait_free (idle rt) =
      let (session, manager) = get_or_create json key now rt.manager in
      elim (Bool-cases (has_window json io others keep_count archive_all session)) [
        | inl e ↦ rw e (run_manual_free session (record rt { manager = manager }))
        | inr e ↦ rw e refl
      ]

  -- The state that the trigger goes on from: that after the wait, if it waits
  abbrev pub trigger_from :
      List (Bool × Runtime Any Vectors)
      → Session Any × SessionManager Any
      → Runtime Any Vectors
      → Runtime Any Vectors
  trigger_from polls (session, manager) rt =
      let rt' : Runtime Any Vectors = record rt { manager = manager } in
      if has_window json io others keep_count archive_all session && contains rt.consolidating key
      then seen (wait_for_consolidation_idle key polls rt')
      else rt'

  trigger_opened_free :
      (polls : List (Bool × Runtime Any Vectors)) (opened : Session Any × SessionManager Any)
      (rt : Runtime Any Vectors)
      → contains
          (trigger_opened json io others keep_count key archive_all now polls opened
            rt).1.consolidating
          k
        ≡ contains (trigger_from polls opened rt).consolidating k
  unfolding trigger_opened
  trigger_opened_free polls (session, manager) rt =
      elim (Bool-cases (has_window json io others keep_count archive_all session)) [
        | inl e ↦ rw e (elim (Bool-cases (contains rt.consolidating key)) [
          | inl busy ↦ rw busy (
              after_wait_free
                (wait_for_consolidation_idle key polls (record rt { manager = manager })))
          | inr free ↦ rw free (run_manual_free session (record rt { manager = manager }))
        ])
        | inr e ↦ rw e refl
      ]

  -- Whatever other coroutines do while the runner and the saving are awaited, and however
  -- trigger_memory_consolidation ends, also by an exception of the saving, its session is in the
  -- set of the scheduler exactly if it was in the state that the trigger went on from: the state
  -- after the wait, if there is a window and the session was being consolidated, else the first
  -- state. The same holds of every other session that the coroutines neither add to the set nor
  -- take out of it in these awaits.
  pub trigger_memory_consolidation_free :
      (polls : List (Bool × Runtime Any Vectors)) (rt : Runtime Any Vectors)
      → contains
          (trigger_memory_consolidation json io others keep_count key archive_all now polls
            rt).1.consolidating
          k
        ≡ contains (trigger_from polls (get_or_create json key now rt.manager) rt).consolidating k
  unfolding trigger_memory_consolidation
  trigger_memory_consolidation_free polls rt =
      trigger_opened_free polls (get_or_create json key now rt.manager) rt
