-- ===== src/Session/Store/Messages.antt =====
-- session/store.py: a message that is written is read back, after those that were there.
use mathlib.Core.List.{append-nil, map-append}
use minicode_agent_runtime.Prelude.{
  none, some, All-append, sym, ℕ, String, Bool, true, ◌+◌, max, leb, List, [], ◌∷◌, ◌++◌, str_eq,
  ◌≡◌, refl, ap, ◌≤◌, ◌<◌, arith, Bool-cases, inl, inr, All, ◌||◌, ◌&&◌, false, ◌==◌, sym, eq_iff,
  ◌∙◌, eq_refl, Option, truthy, some,
}
use minicode_agent_runtime.Tools.{sort, insert_sorted}
use minicode_agent_runtime.Session.Store.{
  MessageRow, rows_of, seq_after, Json, message_id, is_taken, insert_message, Dict, SessionStore,
  fetch_session_messages, next_seq, Group, row_to_message, written_message, chain_of, message_row,
}
use mathlib.Core.Option.{none}

by_seq : MessageRow → MessageRow → Bool
by_seq a b = leb a.seq b.seq

insert_sorted-append :
    (x m : MessageRow) (ys : List MessageRow)
    → leb x.seq m.seq ≡ true
    → insert_sorted (λ (a b : MessageRow). leb a.seq b.seq) x (ys ++ m ∷ [])
      ≡ insert_sorted (λ (a b : MessageRow). leb a.seq b.seq) x ys ++ m ∷ []
unfolding insert_sorted
insert_sorted-append x m [] h = rw h refl
insert_sorted-append x m (y ∷ ys) h = elim (Bool-cases (leb x.seq y.seq)) [
  | inl e ↦ rw e refl
  | inr e ↦ rw e (ap (◌∷◌ y) (insert_sorted-append x m ys h))
]

-- The rows before a number
abbrev Below : ℕ → List MessageRow → Type 0
Below n rows = All (λ (m : MessageRow). m.seq < n) rows

seq_after-Below_from : (n : ℕ) (rows : List MessageRow) → seq_after rows ≤ n → Below n rows
seq_after-Below_from n [] h = tt
seq_after-Below_from n (m ∷ ms) h = (omega (arith, h), seq_after-Below_from n ms (omega (arith, h)))

sort-append :
    (m : MessageRow) (rows : List MessageRow)
    → Below m.seq rows
    → sort (λ (a b : MessageRow). leb a.seq b.seq) (rows ++ m ∷ [])
      ≡ sort (λ (a b : MessageRow). leb a.seq b.seq) rows ++ m ∷ []
unfolding sort insert_sorted
sort-append m [] h = refl
sort-append m (x ∷ rows) h = rw (sort-append m rows h.1) (
    insert_sorted-append x m (sort (λ (a b : MessageRow). leb a.seq b.seq) rows)
      (ground (arith, h.0)))

rows_of-append :
    (key : String) (xs ys : List MessageRow)
    → rows_of key (xs ++ ys) ≡ rows_of key xs ++ rows_of key ys
rows_of-append key [] ys = refl
rows_of-append key (x ∷ xs) ys = elim (Bool-cases (str_eq x.session_key key)) [
  | inl e ↦ rw e (ap (◌∷◌ x) (rows_of-append key xs ys))
  | inr e ↦ rw e (rows_of-append key xs ys)
]

seq_after-append :
    (rows : List MessageRow) (m : MessageRow)
    → seq_after (rows ++ m ∷ []) ≡ max (seq_after rows) (m.seq + 1)
seq_after-append [] m = omega arith
seq_after-append (x ∷ rows) m = omega (arith, seq_after-append rows m)

rows_of-head :
    (key : String) (m : MessageRow) (ms : List MessageRow)
    → m.session_key ≡ key
    → m.seq < seq_after (rows_of key (m ∷ ms))
rows_of-head key m ms same = rw ((eq_iff m.session_key key).1 same) (omega arith)

rows_of-tail :
    (key : String) (m : MessageRow) (ms : List MessageRow)
    → seq_after (rows_of key ms) ≤ seq_after (rows_of key (m ∷ ms))
rows_of-tail key m ms = elim (Bool-cases (str_eq m.session_key key)) [
  | inl e ↦ rw e (omega arith)
  | inr e ↦ rw e (omega arith)
]

-- A store with one row more
abbrev pub add_row : MessageRow → SessionStore → SessionStore
add_row row store = record store { messages = store.messages ++ row ∷ [] }

module _ {Any : Type 0} (json : Json Any) where
  -- Each row has the id that its session and its number make.
  abbrev pub OwnIds : List MessageRow → Type 0
  OwnIds rows = All (λ (m : MessageRow). m.id ≡ message_id json.decimal m.session_key m.seq) rows

module _ {Any : Type 0} (json : Json Any)
    (ids_differ : (k k' : String) (n n' : ℕ)
      → message_id json.decimal k n ≡ message_id json.decimal k' n'
      → (k ≡ k') × (n ≡ n')) where
  row_free :
      (m : MessageRow) (key : String) (n : ℕ)
      → m.id ≡ message_id json.decimal m.session_key m.seq
      → (m.session_key ≡ key → m.seq < n)
      → (str_eq m.id (message_id json.decimal key n) || (str_eq m.session_key key && m.seq == n))
        ≡ false
  row_free m key n own below = elim (Bool-cases (str_eq m.id (message_id json.decimal key n))) [
    | inl e ↦
        let same =
          ids_differ m.session_key key m.seq n
            (sym own ∙ (eq_iff m.id (message_id json.decimal key n)).0 e) in
        absurd (omega (arith, below same.0, same.1))
    | inr e ↦ rw e (elim (Bool-cases (str_eq m.session_key key)) [
      | inl k ↦ let lower = below ((eq_iff m.session_key key).0 k) in rw k (ground (arith, lower))
      | inr k ↦ rw k refl
    ])
  ]

  not_taken :
      (key : String) (n : ℕ) (rows : List MessageRow)
      → OwnIds json rows
      → seq_after (rows_of key rows) ≤ n
      → is_taken (message_id json.decimal key n) key n rows ≡ false
  not_taken key n [] own h = refl
  not_taken key n (m ∷ ms) own h =
      let later = rows_of-tail key m ms in
      rw
        (
          row_free m key n own.0 (λ same. omega (arith, h, rows_of-head key m ms same)),
          not_taken key n ms own.1 (omega (arith, h, later)),
        )
        refl

  pub insert_message_next :
      (key role content ts : String) (chain : Option (List (Group Any))) (extra : Dict Any)
      (store : SessionStore)
      → OwnIds json store.messages
      → let n = next_seq store key in
        insert_message json key role content ts n chain extra store
        ≡ some (
          written_message json key role content ts n chain extra,
          add_row (message_row json key role content ts n chain extra) store,
        )
  unfolding insert_message next_seq
  insert_message_next key role content ts chain extra store own =
      rw (not_taken key (seq_after (rows_of key store.messages)) store.messages own (omega arith))
        refl

  pub add_row-OwnIds :
      (row : MessageRow) (store : SessionStore)
      → row.id ≡ message_id json.decimal row.session_key row.seq
      → OwnIds json store.messages
      → OwnIds json (add_row row store).messages
  add_row-OwnIds row store own h = All-append _ store.messages (row ∷ []) h (own, tt)

  pub next_seq-add_row :
      (row : MessageRow) (store : SessionStore)
      → row.seq ≡ next_seq store row.session_key
      → next_seq (add_row row store) row.session_key ≡ row.seq + 1
  unfolding next_seq
  next_seq-add_row row store e =
      rw (rows_of-append row.session_key store.messages (row ∷ []), eq_refl row.session_key)
        (seq_after-append (rows_of row.session_key store.messages) row ∙ omega (arith, e))

  -- The rows of the session in their order, with the new one at the end
  pub fetch-add_row :
      (row : MessageRow) (store : SessionStore)
      → row.seq ≡ next_seq store row.session_key
      → fetch_session_messages json (add_row row store) row.session_key
        ≡ fetch_session_messages json store row.session_key ++ row_to_message json row ∷ []
  unfolding next_seq fetch_session_messages
  fetch-add_row row store e =
      let rows = rows_of row.session_key store.messages in
      rw
        (
          rows_of-append row.session_key store.messages (row ∷ []),
          eq_refl row.session_key,
          sort-append row rows (seq_after-Below_from row.seq rows (omega (arith, e))),
        )
        (map-append (row_to_message json) (sort (λ (a b : MessageRow). leb a.seq b.seq) rows)
          (row ∷ []))

  pub fetch-add_row_other :
      (row : MessageRow) (store : SessionStore) (key : String)
      → str_eq row.session_key key ≡ false
      → fetch_session_messages json (add_row row store) key ≡ fetch_session_messages json store key
  unfolding fetch_session_messages
  fetch-add_row_other row store key e =
      rw (rows_of-append key store.messages (row ∷ []), e, append-nil (rows_of key store.messages))
        refl

module _ {Any : Type 0} (json : Json Any) where
  -- What was written of a chain is read back.
  abbrev pub ChainKept : Option (List (Group Any)) → Type 0
  ChainKept none = Unit
  ChainKept (some c) =
      (truthy (json.dump_chain c) ≡ true) × (json.load_chain (json.dump_chain c) ≡ c)

  pub row_to_message-message_row :
      (key role content ts : String) (n : ℕ) (chain : Option (List (Group Any))) (extra : Dict Any)
      → ChainKept chain
      → json.load (json.dump extra) ≡ extra
      → row_to_message json (message_row json key role content ts n chain extra)
        ≡ written_message json key role content ts n chain extra
  unfolding row_to_message chain_of
  row_to_message-message_row key role content ts n none extra kept same = rw same refl
  row_to_message-message_row key role content ts n (some c) extra kept same =
      rw (same, kept.0, kept.1) refl
