-- ===== src/Session/Manager.antt =====
-- session/manager.py: `SessionManager`, the sessions in memory and their store.
pub mod Persist
use Prim.Native.String.{◌++◌ as str_append}
use minicode_agent_runtime.Prelude.{
  ℕ, String, Bool, true, false, zero, suc, ◌+◌, if◌then◌else◌, List, [], ◌∷◌, ◌++◌, Option, none,
  some, truthy, or_text, length,
}
use minicode_agent_runtime.Prelude.Dict.{Dict, get, put, pop}
use minicode_agent_runtime.Session.{Session, SessionMessage}
use minicode_agent_runtime.Session.Store.{
  SessionStore, SessionRow, Json, upsert_session, get_session_meta, next_seq, message_id,
  insert_message, fetch_session_messages,
}

-- The store and `_cache`; the lock of a session lets one coroutine write at a time.
pub record SessionManager (Any : Type 0) : Type 0 where
  pub store : SessionStore
  pub cache : Dict (Session Any)

-- How `_persist_messages` ends: the messages with their ids, or the exception of an insertion,
-- with the rows that were written before it.
pub data Persisted (Any : Type 0) : Type 0 where
  done : List (SessionMessage Any) → SessionStore → Persisted Any
  refused : SessionStore → Persisted Any

module _ {Any : Type 0} (json : Json Any) where
  -- `_ensure_session_meta`, and the writing of the metadata at the end of `save`
  unfoldable pub write_meta : Session Any → SessionStore → SessionStore
  write_meta session store =
      upsert_session session.key session.created_at session.updated_at session.last_consolidated
        (json.dump session.metadata) store

  abbrev pub has_id : SessionMessage Any → Bool
  has_id m = elim m.id [ none ↦ false | some id ↦ truthy id ]

  abbrev pub stamp : Option String → (now : String) → String
  stamp none now = now
  stamp (some t) now = or_text t now

  abbrev pub with_timestamp : (now : String) → Option String → Option String
  with_timestamp now none = some now
  with_timestamp now (some t) = some t

  abbrev keep_message : SessionMessage Any → Persisted Any → Persisted Any
  keep_message m (refused store) = refused store
  keep_message m (done ms store) = done (m ∷ ms) store

  -- `insert_message`, and then the rest of the loop
  abbrev then_rest :
      Option (SessionMessage Any × SessionStore)
      → SessionStore
      → (SessionStore → Persisted Any)
      → Persisted Any
  then_rest none store rest = refused store
  then_rest (some (m, store')) store rest = keep_message m (rest store')

  -- The loop of `_persist_messages` from a number on: a message with an id is not written again,
  -- and `update` gives another the columns of its row. `now` is the clock's instant.
  unfoldable pub persist_from :
      String → (now : String) → ℕ → List (SessionMessage Any) → SessionStore → Persisted Any
  persist_from key now n [] store = done [] store
  persist_from key now n (m ∷ ms) store =
      if has_id m
      then keep_message (record m { timestamp = with_timestamp now m.timestamp })
          (persist_from key now n ms store)
      else then_rest
          (insert_message json key (or_text m.role "assistant") m.content (stamp m.timestamp now) n
            m.tool_chain m.extra store)
          store (persist_from key now (n + 1) ms)

  -- `_persist_messages`
  unfoldable pub persist_messages :
      String → (now : String) → List (SessionMessage Any) → SessionStore → Persisted Any
  persist_messages key now messages store = persist_from key now (next_seq store key) messages store

  -- The end of a saving: the metadata again, and the cache
  settle :
      (List (SessionMessage Any) → Session Any)
      → SessionManager Any
      → Persisted Any
      → Option (Session Any) × SessionManager Any
  settle with_messages manager (refused store) = (none, record manager { store = store })
  settle with_messages manager (done ms store) =
      let session = with_messages ms in
      (
        some session,
        record { store = write_meta session store; cache = put manager.cache session.key session },
      )

  -- `save`: the session as it is afterwards, or none for an exception
  unfoldable pub save :
      (now : String) → Session Any → SessionManager Any → Option (Session Any) × SessionManager Any
  unfolding settle
  save now session manager =
      let session' = record session { updated_at = now } in
      settle (λ ms. record session' { messages = ms }) manager
        (persist_messages session.key now session.messages (write_meta session' manager.store))

  -- `append_messages`, for messages that stand at the end of the session's list: `before` are those
  -- in front of them, and the messages given are the same objects as in the list.
  unfoldable pub append_messages :
      (now : String)
      → Session Any
      → (before messages : List (SessionMessage Any)) → SessionManager Any
      → Option (Session Any) × SessionManager Any
  unfolding settle
  append_messages now session before messages manager =
      let session' = record session { updated_at = now } in
      settle (λ ms. record session' { messages = before ++ ms }) manager
        (persist_messages session.key now messages (write_meta session' manager.store))

  abbrev pub session_of :
      String → Option SessionRow → (now : String) → List (SessionMessage Any) → Session Any
  session_of key none now messages = record {
    key = key;
    messages = messages;
    created_at = now;
    updated_at = now;
    metadata = [];
    last_consolidated = 0;
  }
  session_of key (some row) now messages = record {
    key = key;
    messages = messages;
    created_at = or_text row.created_at now;
    updated_at = or_text row.updated_at now;
    metadata = json.load row.metadata;
    last_consolidated = row.last_consolidated;
  }

  abbrev load_from :
      String → (now : String) → Option SessionRow → List (SessionMessage Any) → Option (Session Any)
  load_from key now none [] = none
  load_from key now none (m ∷ ms) = some (session_of key none now (m ∷ ms))
  load_from key now (some row) messages = some (session_of key (some row) now messages)

  -- `_load`; the texts of the instants are kept as they are.
  unfoldable pub load : String → (now : String) → SessionStore → Option (Session Any)
  load key now store =
      load_from key now (get_session_meta store key) (fetch_session_messages json store key)

  remember : Session Any → SessionManager Any → Session Any × SessionManager Any
  remember session manager =
      (session, record manager { cache = put manager.cache session.key session })

  open_session :
      String
      → (now : String) → Option (Session Any)
      → SessionManager Any
      → Session Any × SessionManager Any
  open_session key now (some session) manager = remember session manager
  open_session key now none manager =
      let session = session_of key none now [] in
      remember session (record manager { store = write_meta session manager.store })

  -- `get_or_create`
  unfoldable pub get_or_create :
      String → (now : String) → SessionManager Any → Session Any × SessionManager Any
  unfolding remember open_session
  get_or_create key now manager = elim (get manager.cache key) [
    | some session ↦ (session, manager)
    | none ↦ open_session key now (load key now manager.store) manager
  ]

  -- `peek_next_message_id`
  unfoldable pub peek_next_message_id : SessionManager Any → String → String
  peek_next_message_id manager key = message_id json.decimal key (next_seq manager.store key)

-- `invalidate`
unfoldable pub invalidate : {Any : Type 0} → String → SessionManager Any → SessionManager Any
invalidate key manager = record manager { cache = pop manager.cache key }
