-- ===== src/Session/Store.antt =====
-- session/store.py: `SessionStore`, the tables of the sessions and of their messages.
pub mod Ids
pub mod Sessions
pub mod Messages
pub mod Edits
use Prim.Native.String.{◌++◌ as str_append}
use minicode_agent_runtime.Prelude.{
  ℕ, String, Bool, true, false, zero, suc, ◌+◌, max, leb, ltb, ◌==◌, if◌then◌else◌, List, [], ◌∷◌,
  ◌++◌, Option, none, some, str_eq, truthy, keep, not, ◌&&◌, ◌||◌, any, length, map, contains,
  strip,
}
use minicode_agent_runtime.Prelude.Dict.{Dict}
use minicode_agent_runtime.Tools.{sort}
use minicode_agent_runtime.Agent.Reasoner.{Group}
use minicode_agent_runtime.Session.{SessionMessage}

-- A row of `sessions`
pub record SessionRow : Type 0 where
  pub key : String
  pub created_at : String
  pub updated_at : String
  pub last_consolidated : ℕ
  pub metadata : String
  pub last_user_at : Option String
  pub last_proactive_at : Option String

-- A row of `messages`
pub record MessageRow : Type 0 where
  pub id : String
  pub session_key : String
  pub seq : ℕ
  pub role : String
  pub content : String
  pub tool_chain : Option String
  pub extra : String
  pub ts : String

-- The tables in the order of insertion
pub record SessionStore : Type 0 where
  pub sessions : List SessionRow
  pub messages : List MessageRow

-- `json.dumps` and `json.loads` on a dict and on a tool chain, and the decimal text of a number
pub record Json (Any : Type 0) : Type 0 where
  pub dump : Dict Any → String
  pub load : String → Dict Any
  pub dump_chain : List (Group Any) → String
  pub load_chain : String → List (Group Any)
  pub decimal : ℕ → String

abbrev pub empty_store : SessionStore
empty_store = record { sessions = []; messages = [] }

-- The first row with a key
abbrev pub find_session : List SessionRow → String → Option SessionRow
find_session [] key = none
find_session (r ∷ rs) key = if str_eq r.key key then some r else find_session rs key

-- UPDATE sessions SET ... WHERE key = ?
abbrev pub update_where : (SessionRow → SessionRow) → String → List SessionRow → List SessionRow
update_where f key [] = []
update_where f key (r ∷ rs) =
    let rest = update_where f key rs in if str_eq r.key key then f r ∷ rest else r ∷ rest

abbrev pub is_some : {A : Type 0} → Option A → Bool
is_some none = false
is_some (some a) = true

-- `session_exists`
unfoldable pub session_exists : SessionStore → String → Bool
session_exists store key = is_some (find_session store.sessions key)

-- INSERT ... ON CONFLICT(key) DO UPDATE SET ...
abbrev pub insert_or_update :
    (SessionRow → SessionRow) → SessionRow → List SessionRow → List SessionRow
insert_or_update f row rows =
    if is_some (find_session rows row.key) then update_where f row.key rows else rows ++ row ∷ []

-- `upsert_session`, on the text of the metadata
unfoldable pub upsert_session :
    (key created_at updated_at : String) → ℕ → String → SessionStore → SessionStore
upsert_session key created_at updated_at last_consolidated metadata store = record store {
  sessions =
      insert_or_update
        (λ r. record r {
          updated_at = updated_at;
          last_consolidated = last_consolidated;
          metadata = metadata;
        })
        (record {
          key = key;
          created_at = created_at;
          updated_at = updated_at;
          last_consolidated = last_consolidated;
          metadata = metadata;
          last_user_at = none;
          last_proactive_at = none;
        })
        store.sessions;
}

-- `update_last_consolidated`
unfoldable pub update_last_consolidated : String → ℕ → (now : String) → SessionStore → SessionStore
update_last_consolidated key last_consolidated now store = record store {
  sessions =
      update_where (λ r. record r { last_consolidated = last_consolidated; updated_at = now }) key
        store.sessions;
}

-- `get_session_meta`, with the text of the metadata
unfoldable pub get_session_meta : SessionStore → String → Option SessionRow
get_session_meta store key = find_session store.sessions key

-- COALESCE(a, b)
abbrev pub coalesce : Option String → Option String → Option String
coalesce none b = b
coalesce (some a) b = some a

-- `update_presence`
unfoldable pub update_presence :
    String → Option String → Option String → (now : String) → SessionStore → SessionStore
update_presence key last_user_at last_proactive_at now store = record store {
  sessions =
      insert_or_update
        (λ r. record r {
          updated_at = now;
          last_user_at = coalesce last_user_at r.last_user_at;
          last_proactive_at = coalesce last_proactive_at r.last_proactive_at;
        })
        (record {
          key = key;
          created_at = now;
          updated_at = now;
          last_consolidated = 0;
          metadata = "{}";
          last_user_at = last_user_at;
          last_proactive_at = last_proactive_at;
        })
        store.sessions;
}

-- `get_presence`
unfoldable pub get_presence : SessionStore → String → Option (Option String × Option String)
get_presence store key = elim (find_session store.sessions key) [
  | none ↦ none
  | some r ↦ some (r.last_user_at, r.last_proactive_at)
]

-- `list_presence`
unfoldable pub list_presence : SessionStore → List (String × Option String × Option String)
list_presence store =
    map (λ (r : SessionRow). (r.key, r.last_user_at, r.last_proactive_at))
      (keep (λ (r : SessionRow). is_some r.last_user_at || is_some r.last_proactive_at)
        store.sessions)

-- The rows of a session
abbrev pub rows_of : String → List MessageRow → List MessageRow
rows_of session_key rows = keep (λ (m : MessageRow). str_eq m.session_key session_key) rows

-- `count_messages`
unfoldable pub count_messages : SessionStore → String → ℕ
count_messages store session_key = length (rows_of session_key store.messages)

-- MAX(seq) + 1, and 0 when there is no row
abbrev pub seq_after : List MessageRow → ℕ
seq_after [] = 0
seq_after (m ∷ ms) = max (m.seq + 1) (seq_after ms)

-- `next_seq`
unfoldable pub next_seq : SessionStore → String → ℕ
next_seq store session_key = seq_after (rows_of session_key store.messages)

-- The id of a message
abbrev pub message_id : (ℕ → String) → String → ℕ → String
message_id decimal session_key seq = str_append session_key (str_append ":" (decimal seq))

-- A row with this id, or with this session and seq, would break a constraint.
abbrev pub is_taken : String → String → ℕ → List MessageRow → Bool
is_taken id session_key seq rows =
    any (λ (m : MessageRow). str_eq m.id id || (str_eq m.session_key session_key && m.seq == seq))
      rows

-- `delete_session`: none is the exception when messages are left.
unfoldable pub delete_session :
    String → (cascade : Bool) → SessionStore → Option (Bool × SessionStore)
delete_session key cascade store =
    let others = keep (λ (r : SessionRow). not (str_eq r.key key)) store.sessions in
    let kept = keep (λ (m : MessageRow). not (str_eq m.session_key key)) store.messages in
    if cascade
    then some (session_exists store key, record { sessions = others; messages = kept })
    else if ltb 0 (count_messages store key)
    then none
    else some (session_exists store key, record store { sessions = others })

module _ {Any : Type 0} (json : Json Any) where
  chain_of : Option String → Option (List (Group Any))
  chain_of none = none
  chain_of (some t) = if truthy t then some (json.load_chain t) else none

  -- `_row_to_message`
  unfoldable pub row_to_message : MessageRow → SessionMessage Any
  unfolding chain_of
  row_to_message row = record {
    id = some row.id;
    seq = some row.seq;
    role = row.role;
    content = row.content;
    timestamp = some row.ts;
    tool_chain = chain_of row.tool_chain;
    extra = json.load row.extra;
  }

  abbrev pub dump_option : Option (List (Group Any)) → Option String
  dump_option none = none
  dump_option (some c) = some (json.dump_chain c)

  -- The row of a message, and the message as it is given back
  abbrev pub message_row :
      String → (role content ts : String) → ℕ → Option (List (Group Any)) → Dict Any → MessageRow
  message_row session_key role content ts seq tool_chain extra = record {
    id = message_id json.decimal session_key seq;
    session_key = session_key;
    seq = seq;
    role = role;
    content = content;
    tool_chain = dump_option tool_chain;
    extra = json.dump extra;
    ts = ts;
  }

  abbrev pub written_message :
      String
      → (role content ts : String) → ℕ
      → Option (List (Group Any))
      → Dict Any
      → SessionMessage Any
  written_message session_key role content ts seq tool_chain extra = record {
    id = some (message_id json.decimal session_key seq);
    seq = some seq;
    role = role;
    content = content;
    timestamp = some ts;
    tool_chain = tool_chain;
    extra = extra;
  }

  -- `insert_message`: the message that was written, or none when a constraint refuses the row
  unfoldable pub insert_message :
      String
      → (role content ts : String) → ℕ
      → Option (List (Group Any))
      → Dict Any
      → SessionStore
      → Option (SessionMessage Any × SessionStore)
  insert_message session_key role content ts seq tool_chain extra store =
      if is_taken (message_id json.decimal session_key seq) session_key seq store.messages
      then none
      else some (
        written_message session_key role content ts seq tool_chain extra,
        record store {
          messages =
              store.messages ++ message_row session_key role content ts seq tool_chain extra ∷ [];
        },
      )

  -- `fetch_session_messages`
  unfoldable pub fetch_session_messages : SessionStore → String → List (SessionMessage Any)
  fetch_session_messages store session_key =
      map row_to_message
        (sort (λ (a b : MessageRow). leb a.seq b.seq) (rows_of session_key store.messages))

  -- `get_message`
  unfoldable pub find_message : List MessageRow → String → Option MessageRow
  find_message [] id = none
  find_message (m ∷ ms) id = if str_eq m.id id then some m else find_message ms id

  unfoldable pub get_message : SessionStore → String → Option (SessionMessage Any)
  unfolding find_message
  get_message store id = elim (find_message store.messages id) [
    | none ↦ none
    | some row ↦ some (row_to_message row)
  ]

  -- `delete_message`
  unfoldable pub delete_message : String → (now : String) → SessionStore → Bool × SessionStore
  unfolding find_message
  delete_message id now store = elim (find_message store.messages id) [
    | none ↦ (false, store)
    | some row ↦ (
      true,
      record {
        sessions = update_where (λ r. record r { updated_at = now }) row.session_key store.sessions;
        messages = keep (λ (m : MessageRow). not (str_eq m.id id)) store.messages;
      },
    )
  ]
