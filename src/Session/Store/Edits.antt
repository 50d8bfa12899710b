-- ===== src/Session/Store/Edits.antt =====
-- session/store.py: the edits and the lists of `SessionStore` that the dashboard and the memory use.
use minicode_agent_runtime.Prelude.{
  ℕ, String, Bool, if◌then◌else◌, List, [], ◌∷◌, ◌++◌, Option, none, some, str_eq, truthy, strip,
  keep, not, ◌||◌, any, length, map, contains,
}
use minicode_agent_runtime.Prelude.Dict.{Dict}
use minicode_agent_runtime.Tools.{sort}
use minicode_agent_runtime.Agent.Reasoner.{Group}
use minicode_agent_runtime.Session.{SessionMessage}
use minicode_agent_runtime.Session.Store.{
  SessionStore, SessionRow, MessageRow, Json, find_session, update_where, is_some, find_message,
  row_to_message, coalesce,
}

-- `create_session`: none is the exception for a key that there is.
unfoldable pub create_session :
    (key metadata : String)
    → ℕ
    → Option String
    → Option String
    → (now : String) → SessionStore
    → Option (SessionRow × SessionStore)
create_session key metadata last_consolidated last_user_at last_proactive_at now store =
    let row : SessionRow = record {
      key = key;
      created_at = now;
      updated_at = now;
      last_consolidated = last_consolidated;
      metadata = metadata;
      last_user_at = last_user_at;
      last_proactive_at = last_proactive_at;
    } in
    if is_some (find_session store.sessions key)
    then none
    else some (row, record store { sessions = store.sessions ++ row ∷ [] })

abbrev or_old : {A : Type 0} → Option A → A → A
or_old none a = a
or_old (some b) a = b

-- `update_session`: what is given is set; the row as it is afterwards, or none without one
unfoldable pub update_session :
    (key : String)
    → Option String
    → Option ℕ
    → Option String
    → Option String
    → (now : String) → SessionStore
    → Option SessionRow × SessionStore
update_session key metadata last_consolidated last_user_at last_proactive_at now store =
    let rows =
      update_where
        (λ r. record r {
          updated_at = now;
          metadata = or_old metadata r.metadata;
          last_consolidated = or_old last_consolidated r.last_consolidated;
          last_user_at = coalesce last_user_at r.last_user_at;
          last_proactive_at = coalesce last_proactive_at r.last_proactive_at;
        })
        key store.sessions in
    (find_session rows key, record store { sessions = rows })

-- `[str(key).strip() for key in keys if str(key).strip()]`
clean_keys : List String → List String
clean_keys keys = keep truthy (map strip keys)

abbrev delete_keys : List String → Bool → SessionStore → Option (ℕ × SessionStore)
delete_keys keys cascade store =
    let chosen = keep (λ (r : SessionRow). contains keys r.key) store.sessions in
    let others = keep (λ (r : SessionRow). not (contains keys r.key)) store.sessions in
    let kept = keep (λ (m : MessageRow). not (contains keys m.session_key)) store.messages in
    if cascade
    then some (length chosen, record { sessions = others; messages = kept })
    else if any (λ (m : MessageRow). contains keys m.session_key) store.messages
    then none
    else some (length chosen, record store { sessions = others })

abbrev unless_empty : {A : Type 0} → List String → A → (List String → A) → A
unless_empty [] a f = a
unless_empty (k ∷ ks) a f = f (k ∷ ks)

-- `delete_sessions_batch`: none is the exception when messages are left.
unfoldable pub delete_sessions_batch :
    List String → (cascade : Bool) → SessionStore → Option (ℕ × SessionStore)
unfolding clean_keys
delete_sessions_batch keys cascade store =
    unless_empty (clean_keys keys) (some (0, store)) (λ ks. delete_keys ks cascade store)

-- The later of two instants in text, in the order of the texts
abbrev later : (String → String → Bool) → Option String → Option String → Option String
later before none b = b
later before (some a) none = some a
later before (some a) (some b) = if before a b then some b else some a

-- `most_recent_user_at`
most_recent : (String → String → Bool) → List SessionRow → Option String
most_recent before [] = none
most_recent before (r ∷ rs) = later before r.last_user_at (most_recent before rs)

unfoldable pub most_recent_user_at : (String → String → Bool) → SessionStore → Option String
unfolding most_recent
most_recent_user_at before store = most_recent before store.sessions

-- `list_sessions`, the last updated first
unfoldable pub list_sessions : (String → String → Bool) → SessionStore → List SessionRow
list_sessions before store =
    sort (λ (a b : SessionRow). before b.updated_at a.updated_at) store.sessions

-- `delete_messages_batch`
delete_ids : List String → (now : String) → SessionStore → ℕ × SessionStore
delete_ids ids now store =
    let gone = keep (λ (m : MessageRow). contains ids m.id) store.messages in
    (
      length gone,
      record {
        sessions =
            map
              (λ (r : SessionRow).
                if any (λ (m : MessageRow). str_eq m.session_key r.key) gone
                then record r { updated_at = now }
                else r)
              store.sessions;
        messages = keep (λ (m : MessageRow). not (contains ids m.id)) store.messages;
      },
    )

unfoldable pub delete_messages_batch :
    List String → (now : String) → SessionStore → ℕ × SessionStore
unfolding clean_keys delete_ids
delete_messages_batch ids now store =
    unless_empty (clean_keys ids) (0, store) (λ is. delete_ids is now store)

-- What `update_message` may set
pub record MessageEdit (Any : Type 0) : Type 0 where
  pub role : Option String
  pub content : Option String
  pub tool_chain : Option (List (Group Any))
  pub extra : Option (Dict Any)
  pub ts : Option String

module _ {Any : Type 0} (json : Json Any) where
  edit_row : MessageEdit Any → MessageRow → MessageRow
  edit_row e m = record m {
    role = or_old e.role m.role;
    content = or_old e.content m.content;
    tool_chain = elim e.tool_chain [ none ↦ m.tool_chain | some c ↦ some (json.dump_chain c) ];
    extra = elim e.extra [ none ↦ m.extra | some d ↦ json.dump d ];
    ts = or_old e.ts m.ts;
  }

  edit_where : MessageEdit Any → String → List MessageRow → List MessageRow
  edit_where e id [] = []
  edit_where e id (m ∷ ms) =
      let rest = edit_where e id ms in if str_eq m.id id then edit_row e m ∷ rest else m ∷ rest

  is_empty_edit : MessageEdit Any → Bool
  is_empty_edit e = not (
      is_some e.role
      || is_some e.content
      || is_some e.tool_chain
      || is_some e.extra
      || is_some e.ts)

  message_in : SessionStore → String → Option (SessionMessage Any)
  message_in store id = elim (find_message json store.messages id) [
    | none ↦ none
    | some row ↦ some (row_to_message json row)
  ]

  -- `update_message`: the message afterwards, or none without one
  unfoldable pub update_message :
      (id : String)
      → MessageEdit Any
      → (now : String) → SessionStore
      → Option (SessionMessage Any) × SessionStore
  unfolding edit_row edit_where is_empty_edit message_in
  update_message id e now store =
      if is_empty_edit e
      then (message_in store id, store)
      else elim (find_message json store.messages id) [
        | none ↦ (none, store)
        | some row ↦
            let store' : SessionStore = record {
              sessions =
                  update_where (λ r. record r { updated_at = now }) row.session_key store.sessions;
              messages = edit_where e id store.messages;
            } in
            (message_in store' id, store')
      ]

  -- The rows with an id, in the order of the ids given
  rows_with : List String → List MessageRow → List MessageRow
  rows_with [] rows = []
  rows_with (id ∷ ids) rows =
      let rest = rows_with ids rows in
      elim (find_message json rows id) [ none ↦ rest | some row ↦ row ∷ rest ]

  -- Each text once, where it stands first
  first_only : List String → List String → List String
  first_only seen [] = []
  first_only seen (id ∷ ids) =
      let rest = first_only (id ∷ seen) ids in if contains seen id then rest else id ∷ rest

  -- `fetch_by_ids`
  unfoldable pub fetch_by_ids : List String → SessionStore → List (SessionMessage Any)
  unfolding rows_with first_only
  fetch_by_ids ids store = map (row_to_message json) (rows_with (first_only [] ids) store.messages)
