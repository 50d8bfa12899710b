-- ===== src/Session/Manager/Persist.antt =====
-- session/manager.py: what is written is what a later load gives back.
use mathlib.Core.List.{append_assoc, append-nil}
use minicode_agent_runtime.Prelude.{
  ℕ, String, true, false, ◌+◌, List, [], ◌∷◌, ◌++◌, Option, some, ◌≡◌, refl, sym, ap, ◌∙◌, or_text,
  All,
}
use minicode_agent_runtime.Prelude.Dict.{Dict}
use minicode_agent_runtime.Agent.Reasoner.{Group}
use minicode_agent_runtime.Session.{SessionMessage, Session}
use minicode_agent_runtime.Session.Store.{
  SessionStore, Json, upsert_session, next_seq, insert_message, fetch_session_messages, message_row,
  written_message,
}
use minicode_agent_runtime.Session.Store.Ids.{has_colon, message_id-differ}
use minicode_agent_runtime.Session.Store.Messages.{
  ChainKept, OwnIds, add_row, insert_message_next, add_row-OwnIds, next_seq-add_row, fetch-add_row,
  row_to_message-message_row,
}
use minicode_agent_runtime.Session.Store.Sessions.{upsert_session_row}
use minicode_agent_runtime.Session.Manager.{
  Persisted, done, refused, has_id, stamp, keep_message, persist_from, settle, load,
  append_messages, persist_messages, SessionManager, write_meta, load_from, session_of, save,
  with_timestamp,
}
use mathlib.Core.Option.{none}

module _ {Any : Type 0} (json : Json Any) (plain : (n : ℕ) → has_colon (json.decimal n) ≡ false)
    (differ : (n n' : ℕ) → json.decimal n ≡ json.decimal n' → n ≡ n') where
  -- New messages with their consecutive numbers
  abbrev pub numbered :
      String → (now : String) → ℕ → List (SessionMessage Any) → List (SessionMessage Any)
  numbered key now n [] = []
  numbered key now n (m ∷ ms) =
      written_message json key (or_text m.role "assistant") m.content (stamp json m.timestamp now) n
        m.tool_chain m.extra
      ∷ numbered key now (n + 1) ms

  -- Messages that were never written
  abbrev pub New : List (SessionMessage Any) → Type 0
  New ms = All (λ (m : SessionMessage Any). has_id json m ≡ false) ms

  -- json gives back what it was given of the messages.
  abbrev pub Kept : List (SessionMessage Any) → Type 0
  Kept ms =
      All
        (λ (m : SessionMessage Any).
          ChainKept json m.tool_chain × (json.load (json.dump m.extra) ≡ m.extra))
        ms

  -- The messages were written as `ms` after those that the store had, and nothing else was.
  abbrev pub Written : String → SessionStore → List (SessionMessage Any) → Persisted Any → Type 0
  Written key store ms (refused store') = true ≡ false
  Written key store ms (done ms' store') =
      (ms' ≡ ms)
      × (fetch_session_messages json store' key ≡ fetch_session_messages json store key ++ ms)
      × (store'.sessions ≡ store.sessions)
      × OwnIds json store'.messages

  keep_message-Written :
      (key : String) (store store' : SessionStore) (w : SessionMessage Any)
      (ms : List (SessionMessage Any)) (out : Persisted Any)
      → fetch_session_messages json store' key ≡ fetch_session_messages json store key ++ w ∷ []
      → store'.sessions ≡ store.sessions
      → Written key store' ms out
      → Written key store (w ∷ ms) (keep_message json w out)
  keep_message-Written key store store' w ms (refused last) fetched same h = h
  keep_message-Written key store store' w ms (done ms' last) fetched same h = (
    ap (◌∷◌ w) h.0,
    h.1
        ∙ ap (λ l. l ++ ms) fetched
        ∙ append_assoc (fetch_session_messages json store key) (w ∷ []) ms,
    h.2 ∙ same,
    h.3,
  )

  insert_at :
      (key role content ts : String) (n : ℕ) (chain : Option (List (Group Any))) (extra : Dict Any)
      (store : SessionStore)
      → OwnIds json store.messages
      → n ≡ next_seq store key
      → insert_message json key role content ts n chain extra store
        ≡ some (
          written_message json key role content ts n chain extra,
          add_row (message_row json key role content ts n chain extra) store,
        )
  insert_at key role content ts n chain extra store own e = rw e (
      insert_message_next json (message_id-differ json.decimal plain differ) key role content ts
        chain extra store own)

  persist_from-Written :
      (key now : String) (n : ℕ) (ms : List (SessionMessage Any)) (store : SessionStore)
      → New ms
      → Kept ms
      → OwnIds json store.messages
      → n ≡ next_seq store key
      → Written key store (numbered key now n ms) (persist_from json key now n ms store)
  unfolding persist_from
  persist_from-Written key now n [] store new kept own e =
      (refl, sym (append-nil (fetch_session_messages json store key)), refl, own)
  persist_from-Written key now n (m ∷ ms) store new kept own e =
      let role = or_text m.role "assistant" in
      let ts = stamp json m.timestamp now in
      let row = message_row json key role m.content ts n m.tool_chain m.extra in
      let store' = add_row row store in
      rw (new.0, insert_at key role m.content ts n m.tool_chain m.extra store own e)
        (keep_message-Written key store store'
          (written_message json key role m.content ts n m.tool_chain m.extra)
          (numbered key now (n + 1) ms) (persist_from json key now (n + 1) ms store')
          (fetch-add_row json (message_id-differ json.decimal plain differ) row store e
            ∙ rw
                (row_to_message-message_row json key role m.content ts n m.tool_chain m.extra
                  kept.0.0 kept.0.1)
                refl)
          refl
          (persist_from-Written key now (n + 1) ms store' new.1 kept.1
            (add_row-OwnIds json (message_id-differ json.decimal plain differ) row store refl own)
            (sym
              (next_seq-add_row json (message_id-differ json.decimal plain differ) row store e))))

  -- The saving succeeded; the session in memory has these messages, and a load, with no help of
  -- the cache, gives a session with the same messages, metadata and mark of consolidation.
  abbrev pub Reloads :
      Session Any
      → (later : String) → (memory stored : List (SessionMessage Any))
      → Option (Session Any) × SessionManager Any
      → Type 0
  Reloads session later memory stored (none, manager) = true ≡ false
  Reloads session later memory stored (some session', manager) =
      (session'.messages ≡ memory)
      × ((loaded : Session Any) × (load json session.key later manager.store ≡ some loaded)
          × (loaded.messages ≡ stored)
          × (loaded.metadata ≡ session.metadata)
          × (loaded.last_consolidated ≡ session.last_consolidated))

  load_written :
      (session : Session Any) (later : String) (store : SessionStore)
      → (loaded : Session Any) × (load json session.key later (write_meta json session store)
          ≡ some loaded)
        × (loaded.messages ≡ fetch_session_messages json store session.key)
        × (loaded.metadata ≡ json.load (json.dump session.metadata))
        × (loaded.last_consolidated ≡ session.last_consolidated)
  unfolding load write_meta upsert_session fetch_session_messages
  load_written session later store =
      let found =
        upsert_session_row session.key session.created_at session.updated_at
          session.last_consolidated (json.dump session.metadata) store in
      let messages = fetch_session_messages json store session.key in
      (
        session_of json session.key (some found.0) later messages,
        ap (λ row. load_from json session.key later row messages) found.1,
        refl,
        ap json.load found.3,
        found.2,
      )

  settle-Reloads :
      (session : Session Any) (later : String) (before ms : List (SessionMessage Any))
      (manager : SessionManager Any) (store : SessionStore) (out : Persisted Any)
      → Written session.key store ms out
      → fetch_session_messages json store session.key ≡ before
      → json.load (json.dump session.metadata) ≡ session.metadata
      → Reloads session later
          (before ++ ms)
          (before ++ ms)
          (settle json (λ ms'. record session { messages = before ++ ms' }) manager out)
  unfolding settle
  settle-Reloads session later before ms manager store (refused last) h e metadata = h
  settle-Reloads session later before ms manager store (done ms' last) h e metadata =
      let session' = record session { messages = before ++ ms' } in
      let loaded = load_written session' later last in
      (
        ap (λ l. before ++ l) h.0,
        (loaded.0, loaded.1, loaded.2 ∙ h.1 ∙ ap (λ l. l ++ ms) e, loaded.3 ∙ metadata, loaded.4),
      )

  -- In a store whose rows have the ids of their sessions and numbers, after append_messages of
  -- messages without ids to a session whose other messages are those of the store, a load of the
  -- session, with no help of the cache, gives the same messages as the session has in memory, the
  -- new ones with the ids and numbers that follow, the same metadata and the same mark of
  -- consolidation; json gives back what it was given, and the texts of numbers differ and have no
  -- colon.
  pub load-append_messages :
      (now later : String) (session : Session Any) (before messages : List (SessionMessage Any))
      (manager : SessionManager Any)
      → OwnIds json manager.store.messages
      → New messages
      → Kept messages
      → json.load (json.dump session.metadata) ≡ session.metadata
      → fetch_session_messages json manager.store session.key ≡ before
      → let stored =
          before ++ numbered session.key now (next_seq manager.store session.key) messages in
        Reloads session later stored stored
          (append_messages json now session before messages manager)
  unfolding append_messages persist_messages write_meta upsert_session next_seq
      fetch_session_messages
  load-append_messages now later session before messages manager own new kept metadata e =
      let session' = record session { updated_at = now } in
      let store = write_meta json session' manager.store in
      settle-Reloads session' later before
        (numbered session.key now (next_seq manager.store session.key) messages) manager store
        (persist_messages json session.key now messages store)
        (persist_from-Written session.key now (next_seq store session.key) messages store new kept
          own refl)
        e metadata

  -- Messages that were written before, with their instants
  abbrev pub stamped : (now : String) → List (SessionMessage Any) → List (SessionMessage Any)
  stamped now [] = []
  stamped now (m ∷ ms) =
      record m { timestamp = with_timestamp json now m.timestamp } ∷ stamped now ms

  persist_from_old :
      (key now : String) (n : ℕ) (ms : List (SessionMessage Any)) (store : SessionStore)
      → All (λ (m : SessionMessage Any). has_id json m ≡ true) ms
      → persist_from json key now n ms store ≡ done (stamped now ms) store
  unfolding persist_from
  persist_from_old key now n [] store old = refl
  persist_from_old key now n (m ∷ ms) store old =
      rw (old.0, persist_from_old key now n ms store old.1) refl

  -- The saving succeeded with these messages in memory, and the rows of the messages, of every
  -- session, are `rows`; a load gives all messages that they have of this session, its metadata
  -- as json gives them back, and its mark of consolidation.
  abbrev pub Resaved :
      Session Any
      → (later : String) → (memory : List (SessionMessage Any)) → SessionStore
      → Option (Session Any) × SessionManager Any
      → Type 0
  Resaved session later memory store (none, manager) = true ≡ false
  Resaved session later memory store (some session', manager) =
      (session'.messages ≡ memory)
      × (manager.store.messages ≡ store.messages)
      × ((loaded : Session Any) × (load json session.key later manager.store ≡ some loaded)
          × (loaded.messages ≡ fetch_session_messages json store session.key)
          × (loaded.metadata ≡ json.load (json.dump session.metadata))
          × (loaded.last_consolidated ≡ session.last_consolidated))

  -- When all messages of a session have ids, save succeeds and changes no row of the messages, of
  -- this or of any other session. A load then gives every message that the store has of the
  -- session, also those that the session in memory has not, the mark of consolidation, and the
  -- metadata as json gives them back.
  pub load-save :
      (now later : String) (session : Session Any) (manager : SessionManager Any)
      → All (λ (m : SessionMessage Any). has_id json m ≡ true) session.messages
      → Resaved session later
          (stamped now session.messages)
          manager.store
          (save json now session manager)
  unfolding save persist_messages settle write_meta upsert_session fetch_session_messages
  load-save now later session manager old =
      let session' = record session { updated_at = now } in
      let store = write_meta json session' manager.store in
      rw (persist_from_old session.key now (next_seq store session.key) session.messages store old)
        (refl, refl, load_written session' later store)
