-- ===== src/Session/Store/Sessions.antt =====
-- session/store.py: the row of a session after it is written.
use minicode_agent_runtime.Prelude.{
  ℕ, String, List, [], ◌∷◌, ◌++◌, Option, none, some, str_eq, eq_refl, ◌≡◌, refl, ◌∙◌, Bool-cases,
  inl, inr, Option-cases,
}
use minicode_agent_runtime.Session.Store.{
  SessionStore, SessionRow, find_session, update_where, insert_or_update, upsert_session,
  get_session_meta,
}

abbrev map_row : (SessionRow → SessionRow) → Option SessionRow → Option SessionRow
map_row f none = none
map_row f (some r) = some (f r)

abbrev or_row : Option SessionRow → SessionRow → SessionRow
or_row none row = row
or_row (some r) row = r

find_session-append :
    (rows : List SessionRow) (row : SessionRow)
    → find_session (rows ++ row ∷ []) row.key ≡ some (or_row (find_session rows row.key) row)
find_session-append [] row = rw (eq_refl row.key) refl
find_session-append (r ∷ rs) row = elim (Bool-cases (str_eq r.key row.key)) [
  | inl e ↦ rw e refl
  | inr e ↦ rw e (find_session-append rs row)
]

find_session-update_where :
    (f : SessionRow → SessionRow) (key : String) (rows : List SessionRow)
    → ((r : SessionRow) → (f r).key ≡ r.key)
    → find_session (update_where f key rows) key ≡ map_row f (find_session rows key)
find_session-update_where f key [] keeps = refl
find_session-update_where f key (r ∷ rs) keeps = elim (Bool-cases (str_eq r.key key)) [
  | inl e ↦ rw (e, keeps r, e) refl
  | inr e ↦ rw (e, e) (find_session-update_where f key rs keeps)
]

-- A row that is written where there was one takes its place by `f`, and another is added.
find_session-insert_or_update :
    (f : SessionRow → SessionRow) (row : SessionRow) (rows : List SessionRow)
    → ((r : SessionRow) → (f r).key ≡ r.key)
    → find_session (insert_or_update f row rows) row.key
      ≡ some (elim (find_session rows row.key) [ none ↦ row | some r ↦ f r ])
find_session-insert_or_update f row rows keeps = elim (Option-cases (find_session rows row.key)) [
  | inl e ↦ rw e (find_session-append rows row ∙ rw e refl)
  | inr (r, e) ↦ rw e (find_session-update_where f row.key rows keeps ∙ rw e refl)
]

-- The row of a session after upsert_session
pub upsert_session_row :
    (key created_at updated_at : String) (n : ℕ) (metadata : String) (store : SessionStore)
    → (r : SessionRow) × (get_session_meta
          (upsert_session key created_at updated_at n metadata store)
          key
        ≡ some r)
      × (r.last_consolidated ≡ n)
      × (r.metadata ≡ metadata)
unfolding get_session_meta upsert_session
upsert_session_row key created_at updated_at n metadata store =
    let f = λ (r : SessionRow). record r {
      updated_at = updated_at;
      last_consolidated = n;
      metadata = metadata;
    } in
    let row : SessionRow = record {
      key = key;
      created_at = created_at;
      updated_at = updated_at;
      last_consolidated = n;
      metadata = metadata;
      last_user_at = none;
      last_proactive_at = none;
    } in
    let found = find_session-insert_or_update f row store.sessions (λ r. refl) in
    elim (Option-cases (find_session store.sessions key)) [
      | inl e ↦ (row, found ∙ rw e refl, refl, refl)
      | inr (r, e) ↦ (f r, found ∙ rw e refl, refl, refl)
    ]
