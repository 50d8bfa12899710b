-- ===== src/Agent/Consolidation/Service/Mark.antt =====
-- agent/looping/consolidation.py: the mark of a session after `consolidate`, on every path.
use minicode_agent_runtime.Prelude.{
  ℕ, Bool, true, false, ◌/◌, max, if◌then◌else◌, Option, none, some, ◌≡◌, refl, Bool-cases, inl,
  inr,
}
use minicode_agent_runtime.Prelude.Codes.{Text, blank, strip}
use minicode_agent_runtime.Session.{Session}
use minicode_agent_runtime.Agent.Consolidation.{ConsolidationWindow, select_consolidation_window}
use minicode_agent_runtime.Agent.Consolidation.Snapshot.{Answer, raised, no_dict, dict}
use minicode_agent_runtime.Agent.Consolidation.Service.{
  consolidate, run_window, finish_window, commit, MemoryStore, on_text, on_payload, on_window,
  after_implicit, after_saves, commit_implicit, implicit_of, reply_of,
}
use minicode_agent_runtime.Agent.Consolidation.Ports.{
  Ports, Work, Ended, no_window, unanswered, failed, done, EventPayload, Implicit,
}

module _ {Any Vectors : Type 0} where
  -- The mark is set exactly when the consolidation is done, to the end of its window.
  abbrev pub Marks :
      Bool
      → Session Any
      → Option (ConsolidationWindow Any)
      → Ended Any × Session Any × Work Vectors
      → Type 0
  Marks archive_all session selected (no_window, session', work) =
      (selected ≡ none) × (session' ≡ session)
  Marks archive_all session selected (unanswered, session', work) = session' ≡ session
  Marks archive_all session selected (failed, session', work) = session' ≡ session
  Marks archive_all session selected (done window, session', work) =
      (selected ≡ some window)
      × (session' ≡ record session {
        last_consolidated = if archive_all then 0 else window.consolidate_up_to;
      })

module _ {Any Vectors : Type 0} (io : Ports Any Vectors) (keep_count : ℕ) (archive_all : Bool)
    (session : Session Any) (window : ConsolidationWindow Any) where
  abbrev Kept : Ended Any × Session Any × Work Vectors → Type 0
  Kept out = Marks archive_all session (some window) out

  finish_window-Marks :
      (text : Option Text) (work : Work Vectors)
      → Kept (finish_window io keep_count archive_all session window text work)
  finish_window-Marks none work = refl
  finish_window-Marks (some text) work = (refl, refl)

  after_implicit-Marks :
      (out : Bool × Vectors) (files : MemoryStore)
      → Kept (after_implicit io keep_count archive_all session window out files)
  after_implicit-Marks (false, vectors) files = refl
  after_implicit-Marks (true, vectors) files = finish_window-Marks _ _

  after_saves-Marks :
      (ref : Text) (implicit : Option (Implicit Any)) (out : Bool × Vectors) (files : MemoryStore)
      → Kept (after_saves io keep_count archive_all session window ref implicit out files)
  after_saves-Marks ref implicit (false, vectors) files = refl
  after_saves-Marks ref implicit (true, vectors) files =
      after_implicit-Marks (commit_implicit io session ref implicit vectors) files

  on_payload-Marks :
      (implicit : Option (Implicit Any)) (answer : Answer EventPayload) (work : Work Vectors)
      → Kept (on_payload io keep_count archive_all session window implicit answer work)
  unfolding commit
  on_payload-Marks implicit raised work = refl
  on_payload-Marks implicit no_dict work = refl
  on_payload-Marks implicit (dict payload) work = after_saves-Marks _ implicit _ _

  on_text-Marks :
      (implicit : Option (Implicit Any)) (text : Option Text) (work : Work Vectors)
      → Kept (on_text io keep_count archive_all session window implicit text work)
  on_text-Marks implicit none work = refl
  on_text-Marks implicit (some text) work = elim (Bool-cases (blank (strip text))) [
    | inl e ↦ rw e refl
    | inr e ↦ rw e (on_payload-Marks implicit (io.parse (strip text)) work)
  ]

module _ {Any Vectors : Type 0} (io : Ports Any Vectors) (keep_count : ℕ) (archive_all : Bool)
    (session : Session Any) where
  on_window-Marks :
      (selected : Option (ConsolidationWindow Any)) (work : Work Vectors)
      → Marks archive_all session selected
          (on_window io keep_count archive_all session selected work)
  unfolding run_window
  on_window-Marks none work = (refl, refl)
  on_window-Marks (some window) work =
      on_text-Marks io keep_count archive_all session window (implicit_of io window work.files)
        (reply_of io window work.files) work

  pub consolidate-Marks :
      (work : Work Vectors)
      → Marks archive_all session
          (select_consolidation_window keep_count (max 5 (keep_count / 2)) archive_all session)
          (consolidate io keep_count archive_all session work)
  unfolding consolidate
  consolidate-Marks work = on_window-Marks _ work
