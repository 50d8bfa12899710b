-- ===== src/Tests/Sessions.antt =====
-- Sessions and their store: samples and examples for session/.
use text.Mathlib.TextLemmas.{tail-eq_of_cons-eq, nil≢cons}
use minicode_agent_runtime.Prelude.{
  ℕ, suc, zero, String, false, ◌≡◌, refl, sym, ap, none, some, List, [], ◌∷◌, ◌++◌,
}
use minicode_agent_runtime.Session.{Session, SessionMessage}
use minicode_agent_runtime.Session.Store.{
  Json, SessionStore, empty_store, message_row, next_seq, fetch_session_messages,
}
use minicode_agent_runtime.Session.Store.Ids.{has_colon}
use minicode_agent_runtime.Session.Manager.{SessionManager, append_messages, save}
use minicode_agent_runtime.Session.Manager.Persist.{
  Reloads, Resaved, stamped, load-append_messages, load-save, numbered,
}

-- A number as so many strokes
abbrev strokes : ℕ → String
strokes zero = ""
strokes (suc n) = String.◌∷◌ "1" (strokes n)

strokes_plain : (n : ℕ) → has_colon (strokes n) ≡ false
strokes_plain zero = refl
strokes_plain (suc n) = strokes_plain n

strokes_differ : (n n' : ℕ) → strokes n ≡ strokes n' → n ≡ n'
strokes_differ zero zero e = refl
strokes_differ zero (suc n') e = absurd (nil≢cons e)
strokes_differ (suc n) zero e = absurd (nil≢cons (sym e))
strokes_differ (suc n) (suc n') e = ap suc (strokes_differ n n' (tail-eq_of_cons-eq e))

abbrev json : Json String
json = record {
  dump = λ d. "{}";
  load = λ t. [];
  dump_chain = λ c. "[]";
  load_chain = λ t. [];
  decimal = strokes;
}

abbrev first : SessionMessage String
first = record {
  id = some "cli:";
  seq = some 0;
  role = "user";
  content = "hi";
  timestamp = some "t0";
  tool_chain = none;
  extra = [];
}

abbrev second : SessionMessage String
second = record {
  id = none;
  seq = none;
  role = "assistant";
  content = "hello";
  timestamp = none;
  tool_chain = some [];
  extra = [];
}

abbrev store : SessionStore
store = record empty_store { messages = message_row json "cli" "user" "hi" "t0" 0 none [] ∷ [] }

abbrev manager : SessionManager String
manager = record { store = store; cache = [] }

abbrev talk : Session String
talk = record {
  key = "cli";
  messages = first ∷ second ∷ [];
  created_at = "t0";
  updated_at = "t0";
  metadata = [];
  last_consolidated = 0;
}

abbrev before : List (SessionMessage String)
before = fetch_session_messages json store "cli"

load-append_messages_example :
    Reloads json strokes_plain strokes_differ talk "t2"
      (before
        ++ numbered json strokes_plain strokes_differ "cli" "t1"
            (next_seq store "cli")
            (second ∷ []))
      (before
        ++ numbered json strokes_plain strokes_differ "cli" "t1"
            (next_seq store "cli")
            (second ∷ []))
      (append_messages json "t1" talk before (second ∷ []) manager)
load-append_messages_example =
    load-append_messages json strokes_plain strokes_differ "t1" "t2" talk before (second ∷ [])
      manager (refl, tt) (refl, tt) (((refl, refl), refl), tt) refl refl

-- A session that forgets its only message in memory: a load still gives it.
-- A store with two messages of the session, of which memory has the first, and one of another.
abbrev fuller : SessionStore
fuller = record empty_store {
  messages =
      message_row json "cli" "user" "hi" "t0" 0 none []
      ∷ message_row json "cli" "assistant" "hello" "t0" 1 none []
      ∷ message_row json "web" "user" "hey" "t0" 0 none []
      ∷ [];
}

abbrev trimmed : Session String
trimmed = record talk { messages = first ∷ [] }

load-save_example :
    let full : SessionManager String = record manager { store = fuller } in
    Resaved json strokes_plain strokes_differ trimmed "t2"
      (stamped json strokes_plain strokes_differ "t1" (first ∷ []))
      fuller
      (save json "t1" trimmed full)
load-save_example =
    load-save json strokes_plain strokes_differ "t1" "t2" trimmed
      (record manager { store = fuller }) (refl, tt)
