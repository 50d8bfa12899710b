-- ===== src/Agent/Consolidation/Ports.antt =====
-- agent/looping/consolidation.py: what `consolidate` takes from outside, and its saves through the
-- memory port.
use Prim.Native.String.{String}
use minicode_agent_runtime.Prelude.{
  ℕ, Bool, true, false, if◌then◌else◌, List, [], ◌∷◌, ◌++◌, Option, ◌&&◌, ◌||◌, not, ◌==◌, some,
}
use minicode_agent_runtime.Prelude.Codes.{Text, codes, blank, strip}
use minicode_agent_runtime.Session.{Session, SessionMessage}
use minicode_agent_runtime.Agent.Memory.{MemoryStore}
use minicode_agent_runtime.Agent.Consolidation.{ConsolidationWindow, window_ids, last_items}
use minicode_agent_runtime.Agent.Consolidation.Entries.{
  ℤ, RawEntries, RawItem, RawPending, coerce_emotional_weight,
}
use minicode_agent_runtime.Agent.Consolidation.Context.{cleaned}
use minicode_agent_runtime.Agent.Consolidation.Snapshot.{Answer, Compressor}
use mathlib.Core.Option.{none}

-- The keys of the main model's answer that are read
pub record EventPayload : Type 0 where
  pub history_entries : RawEntries
  pub history_entry : Option RawItem
  pub pending_items : Option (List RawPending)

pub data MemoryType : Type 0 where
  profile : MemoryType
  preference : MemoryType
  procedure : MemoryType

-- An item of a list of the implicit extraction: a dict with its summary and weight, one whose
-- summary is not a text, so that `.strip()` raises, or a value that is no dict; a category that is
-- no text is not modelled
pub data RawFact (Any : Type 0) : Type 0 where
  fact : (summary : Text) → (emotional_weight : Option ℤ) → (fields : Any) → RawFact Any
  bad_summary : RawFact Any
  no_fact : RawFact Any

pub record Implicit (Any : Type 0) : Type 0 where
  pub profiles : List (RawFact Any)
  pub preferences : List (RawFact Any)
  pub procedures : List (RawFact Any)

-- `Vectors` is the state behind the memory port. A save returns whether it ended without an
-- exception, and the state after it.
pub record Ports (Any Vectors : Type 0) : Type 0 where
  pub compressor : Compressor Any
  pub dump : List String → Text
  pub digest : Text → Text
  pub split_entries : Text → List Text
  pub event_chat : (current_memory recent_history conversation : Text) → Option Text
  pub parse : Text → Answer EventPayload
  pub implicit_chat : (conversation existing_profile : Text) → Option Text
  pub parse_implicit : Text → Answer (Implicit Any)
  pub save_from_consolidation :
      Session Any
      → (history_entry source_ref : Text) → (emotional_weight : ℕ) → Vectors
      → Bool × Vectors
  pub save_item_with_supersede :
      Session Any
      → MemoryType
      → (summary : Text) → Any
      → (source_ref : Text) → (emotional_weight : ℕ) → Vectors
      → Bool × Vectors

pub record Work (Vectors : Type 0) : Type 0 where
  pub files : MemoryStore
  pub vectors : Vectors

-- How a consolidation ends
pub data Ended (Any : Type 0) : Type 0 where
  no_window : Ended Any
  unanswered : Ended Any
  failed : Ended Any
  done : ConsolidationWindow Any → Ended Any

-- `_select_recent_history_entries`
unfoldable pub select_recent_history_entries : (Text → List Text) → (limit : ℕ) → Text → List Text
select_recent_history_entries split limit text =
    if blank (strip text) || limit == 0 then [] else last_items limit (cleaned (split (strip text)))

module _ {Any Vectors : Type 0} (io : Ports Any Vectors) where
  -- `_build_consolidation_source_ref`
  unfoldable pub source_ref_of : List (SessionMessage Any) → Text
  unfolding window_ids
  source_ref_of old_messages = io.dump (window_ids old_messages)

  -- `_build_entry_source_ref`
  unfoldable pub build_entry_source_ref : (base entry : Text) → Text
  build_entry_source_ref base entry =
      let text = strip entry in
      base ++ (codes "#h:" ++ (if blank text then codes "empty" else io.digest text))

  -- `gather` of the saves: all are made, and then an exception of one is raised.
  unfoldable pub save_entries :
      Session Any → (source_ref : Text) → List (Text × ℕ) → Vectors → Bool × Vectors
  unfolding build_entry_source_ref
  save_entries session ref [] vectors = (true, vectors)
  save_entries session ref ((entry, weight) ∷ es) vectors =
      let (ok, vectors') =
        io.save_from_consolidation session entry (build_entry_source_ref ref entry) weight
          vectors in
      let (oks, last) = save_entries session ref es vectors' in (ok && oks, last)

  -- The loops of `_save_implicit_long_term` over a list of facts; an exception ends them.
  unfoldable pub save_facts :
      Session Any → MemoryType → (source_ref : Text) → List (RawFact Any) → Vectors → Bool × Vectors
  unfolding coerce_emotional_weight
  save_facts session type ref [] vectors = (true, vectors)
  save_facts session type ref (no_fact ∷ fs) vectors = save_facts session type ref fs vectors
  save_facts session type ref (bad_summary ∷ fs) vectors = (false, vectors)
  save_facts session type ref (fact summary weight fields ∷ fs) vectors =
      let s = strip summary in
      let (ok, vectors') =
        io.save_item_with_supersede session type s fields ref (coerce_emotional_weight weight)
          vectors in
      let rest = save_facts session type ref fs (if blank s then vectors else vectors') in
      if blank s || ok then rest else (false, vectors')

  -- `_save_implicit_long_term`
  unfoldable pub save_implicit_long_term :
      Session Any → (source_ref : Text) → Implicit Any → Vectors → Bool × Vectors
  unfolding save_facts
  save_implicit_long_term session ref facts vectors =
      let (ok, v) = save_facts session profile (ref ++ codes "#profile") facts.profiles vectors in
      let (ok', v') =
        save_facts session preference (ref ++ codes "#implicit") facts.preferences v in
      let (ok'', v'') =
        save_facts session procedure (ref ++ codes "#implicit") facts.procedures v' in
      if not ok then (false, v) else (if not ok' then (false, v') else (ok'', v''))

-- The loop of `_extract_and_save_profile_facts`; an exception of a save ends it.
abbrev save_profile_facts :
    {Any Vectors : Type 0}
    → (Text → Any → (source_ref : Text) → Vectors → Bool × Vectors)
    → (source_ref : Text) → List (Text × Any)
    → Vectors
    → Vectors
save_profile_facts save ref [] vectors = vectors
save_profile_facts save ref ((summary, extra) ∷ facts) vectors =
    let (ok, vectors') = save summary extra ref vectors in
    let rest = save_profile_facts save ref facts vectors' in if ok then rest else vectors'

-- `_extract_and_save_profile_facts`; the extraction is none if it raises.
unfoldable pub extract_and_save_profile_facts :
    {Any Vectors : Type 0}
    → (Text → Any → (source_ref : Text) → Vectors → Bool × Vectors)
    → (source_ref : Text) → (extracted : Option (List (Text × Any))) → Vectors
    → Vectors
extract_and_save_profile_facts save ref none vectors = vectors
extract_and_save_profile_facts save ref (some facts) vectors =
    save_profile_facts save (ref ++ codes "#profile") facts vectors
