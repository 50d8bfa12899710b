-- ===== src/Proactive/State/Tables.antt =====
-- proactive_v2/state.py: what a table of marks holds after its rows are written or deleted.
use minicode_agent_runtime.Prelude.{
  ℕ, String, Bool, true, false, if◌then◌else◌, List, [], ◌∷◌, Option, none, some, str_eq, eq_iff,
  keep, ◌&&◌, ◌≡◌, refl, ◌∙◌, arith, Bool-cases, inl, inr,
}
use minicode_agent_runtime.Proactive.State.{Mark, same_keys, find_mark, upsert_mark}

same_keys_as :
    (m : Mark) (o i o' i' : String)
    → same_keys m o i ≡ true
    → same_keys m o' i' ≡ (str_eq o o' && str_eq i i')
same_keys_as m o i o' i' h = ground (arith, eq_iff m.owner o, eq_iff m.item i)

same_keys_ne :
    (m : Mark) (o i o' i' : String)
    → same_keys m o i ≡ false
    → (str_eq o o' && str_eq i i') ≡ true
    → same_keys m o' i' ≡ false
same_keys_ne m o i o' i' h k =
    ground (arith, eq_iff o o', eq_iff i i', eq_iff m.owner o, eq_iff m.item i)

pub find_mark-upsert_mark :
    (ms : List Mark) (o i o' i' : String) (at : ℕ)
    → find_mark (upsert_mark ms o i at) o' i'
      ≡ (if str_eq o o' && str_eq i i' then some at else find_mark ms o' i')
find_mark-upsert_mark [] o i o' i' at = refl
find_mark-upsert_mark (m ∷ ms) o i o' i' at = elim (Bool-cases (same_keys m o i)) [
  | inl e ↦ rw (e, same_keys_as m o i o' i' e) (if_twice (str_eq o o' && str_eq i i'))
  | inr e ↦
      rw (e, find_mark-upsert_mark ms o i o' i' at)
        (elim (Bool-cases (str_eq o o' && str_eq i i')) [
          | inl k ↦ rw (same_keys_ne m o i o' i' e k, k) refl
          | inr k ↦ rw k refl
        ])
]
  where
    if_twice :
        (b : Bool)
        → (if b then some at else find_mark ms o' i')
          ≡ (if b then some at else if b then some m.at else find_mark ms o' i')
    if_twice true = refl
    if_twice false = refl

-- No two rows have the same keys.
abbrev pub OneRow : List Mark → Type 0
OneRow [] = Unit
OneRow (m ∷ ms) = (find_mark ms m.owner m.item ≡ none) × OneRow ms

abbrev pub keep_at : (ℕ → Bool) → Option ℕ → Option ℕ
keep_at p none = none
keep_at p (some at) = if p at then some at else none

find_mark-keep_absent :
    (p : ℕ → Bool) (ms : List Mark) (o i : String)
    → find_mark ms o i ≡ none
    → find_mark (keep (λ (m : Mark). p m.at) ms) o i ≡ none
find_mark-keep_absent p [] o i h = refl
find_mark-keep_absent p (m ∷ ms) o i h =
    let parts = both_none (same_keys m o i) (find_mark ms o i) h in
    elim (Bool-cases (p m.at)) [
      | inl q ↦ rw (q, parts.0) (find_mark-keep_absent p ms o i parts.1)
      | inr q ↦ rw q (find_mark-keep_absent p ms o i parts.1)
    ]
  where
    both_none :
        (b : Bool) (o : Option ℕ) → (if b then some m.at else o) ≡ none → (b ≡ false) × (o ≡ none)
    both_none true o h = absurd (cc h)
    both_none false o h = (refl, h)

find_mark_as :
    (m : Mark) (ms : List Mark) (o i : String)
    → same_keys m o i ≡ true
    → find_mark ms m.owner m.item ≡ none
    → find_mark ms o i ≡ none
find_mark_as m ms o i e h =
    let owner : m.owner ≡ o = ground (arith, eq_iff m.owner o) in
    let item : m.item ≡ i = ground (arith, eq_iff m.owner o, eq_iff m.item i) in cc (h, owner, item)

same_keys_flip :
    (m : Mark) (o i : String)
    → same_keys m o i ≡ false
    → (str_eq o m.owner && str_eq i m.item) ≡ false
same_keys_flip m o i h =
    ground (arith, eq_iff m.owner o, eq_iff m.item i, eq_iff o m.owner, eq_iff i m.item)

pub find_mark-keep :
    (p : ℕ → Bool) (ms : List Mark) (o i : String)
    → OneRow ms
    → find_mark (keep (λ (m : Mark). p m.at) ms) o i ≡ keep_at p (find_mark ms o i)
find_mark-keep p [] o i h = refl
find_mark-keep p (m ∷ ms) o i h = elim (Bool-cases (same_keys m o i)) [
  | inl e ↦ elim (Bool-cases (p m.at)) [
    | inl q ↦ rw (q, e, q) refl
    | inr q ↦ rw (q, e, q) (find_mark-keep_absent p ms o i (find_mark_as m ms o i e h.0))
  ]
  | inr e ↦ elim (Bool-cases (p m.at)) [
    | inl q ↦ rw (e, q, e) (find_mark-keep p ms o i h.1)
    | inr q ↦ rw (e, q) (find_mark-keep p ms o i h.1)
  ]
]

pub upsert_mark-OneRow :
    (ms : List Mark) (o i : String) (at : ℕ) → OneRow ms → OneRow (upsert_mark ms o i at)
upsert_mark-OneRow [] o i at h = (refl, tt)
upsert_mark-OneRow (m ∷ ms) o i at h = elim (Bool-cases (same_keys m o i)) [
  | inl e ↦ rw e h
  | inr e ↦ rw e (
    find_mark-upsert_mark ms o i m.owner m.item at ∙ rw (same_keys_flip m o i e) h.0,
    upsert_mark-OneRow ms o i at h.1,
  )
]

pub keep-OneRow :
    (p : ℕ → Bool) (ms : List Mark) → OneRow ms → OneRow (keep (λ (m : Mark). p m.at) ms)
keep-OneRow p [] h = tt
keep-OneRow p (m ∷ ms) h = elim (Bool-cases (p m.at)) [
  | inl q ↦ rw q (find_mark-keep_absent p ms m.owner m.item h.0, keep-OneRow p ms h.1)
  | inr q ↦ rw q (keep-OneRow p ms h.1)
]
