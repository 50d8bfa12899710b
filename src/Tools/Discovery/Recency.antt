-- ===== src/Tools/Discovery/Recency.antt =====
-- agent/core/runtime_support.py: the bound of the tools kept, and which are kept.
use minicode_agent_runtime.Prelude.{
  ℕ, String, Bool, false, ◌≡◌, ◌≤◌, ◌<◌, refl, ltb, ltb→le, ltb→lt, List, [], ◌∷◌, ◌++◌, some,
  length, contains, keep, not, str_eq, Distinct, snoc-Distinct, All, arith, Bool-cases, inl, inr,
  Option-cases, eq_iff, ap, ◌∙◌, eq_refl, if◌then◌else◌,
}
use minicode_agent_runtime.Prelude.Dict.{get, All-put, All-get, get-put}
use minicode_agent_runtime.Tools.Discovery.{
  ToolDiscoveryState, get_preloaded, touch, evict, use_tools, update, or_empty,
}

-- No name twice, and not more than the capacity.
abbrev pub Fits : ℕ → List String → Type 0
Fits capacity lru = Distinct lru × (length lru ≤ capacity)

contains-without :
    (x y : String) (xs : List String)
    → contains xs y ≡ false
    → contains (keep (λ z. not (str_eq z x)) xs) y ≡ false
contains-without x y [] h = refl
contains-without x y (z ∷ xs) h = ground (arith, contains-without x y xs)

without-gone :
    (x : String) (xs : List String) → contains (keep (λ z. not (str_eq z x)) xs) x ≡ false
without-gone x [] = refl
without-gone x (z ∷ xs) = ground (arith, without-gone x xs, eq_iff z x)

without-Distinct :
    (x : String) (xs : List String) → Distinct xs → Distinct (keep (λ z. not (str_eq z x)) xs)
without-Distinct x [] h = tt
without-Distinct x (z ∷ xs) h = elim (Bool-cases (str_eq z x)) [
  | inl e ↦ rw e (without-Distinct x xs h.1)
  | inr e ↦ rw e (contains-without x z xs h.0, without-Distinct x xs h.1)
]

touch-Distinct : (lru : List String) (name : String) → Distinct lru → Distinct (touch lru name)
unfolding touch
touch-Distinct lru name h = elim (Bool-cases (contains lru name)) [
  | inl e ↦ rw e (snoc-Distinct name _ (without-gone name lru) (without-Distinct name lru h))
  | inr e ↦ rw e (snoc-Distinct name lru e h)
]

evict-Fits : (capacity : ℕ) (lru : List String) → Distinct lru → Fits capacity (evict capacity lru)
unfolding evict
evict-Fits capacity [] h = (tt, omega arith)
evict-Fits capacity (x ∷ xs) h = elim (Bool-cases (ltb capacity (length (x ∷ xs)))) [
  | inl e ↦ rw e (evict-Fits capacity xs h.1)
  | inr e ↦ rw e (h, ltb→le capacity (length (x ∷ xs)) e)
]

use_tools-Fits :
    (capacity : ℕ) (skip names lru : List String)
    → Fits capacity lru
    → Fits capacity (use_tools capacity skip names lru)
unfolding use_tools
use_tools-Fits capacity skip [] lru h = h
use_tools-Fits capacity skip (name ∷ names) lru h = elim (Bool-cases (contains skip name)) [
  | inl e ↦ rw e (use_tools-Fits capacity skip names lru h)
  | inr e ↦ rw e (
      use_tools-Fits capacity skip names (evict capacity (touch lru name))
        (evict-Fits capacity (touch lru name) (touch-Distinct lru name h.0)))
]

-- Every session's tools fit.
abbrev pub AllFit : ToolDiscoveryState → Type 0
AllFit d = All (λ e. Fits d.capacity e.1) d.unlocked

get_preloaded-Fits :
    (d : ToolDiscoveryState) (session_key : String)
    → AllFit d
    → Fits d.capacity (get_preloaded d session_key)
unfolding get_preloaded
get_preloaded-Fits d session_key h = elim (Option-cases (get d.unlocked session_key)) [
  | inl e ↦ rw e (tt, omega arith)
  | inr (lru, e) ↦
      rw e (
        let (j, q, fits) = All-get (λ e. Fits d.capacity e.1) d.unlocked session_key lru e h in
        fits)
]

-- If every session has no tool twice and at most the capacity, update keeps it so for all
-- sessions.
pub update-AllFit :
    (session_key : String) (tools_used always_on : List String) (d : ToolDiscoveryState)
    → AllFit d
    → AllFit (update session_key tools_used always_on d)
unfolding update
update-AllFit session_key tools_used always_on d h =
    All-put (λ e. Fits d.capacity e.1) d.unlocked session_key _
      (λ j e. use_tools-Fits d.capacity _ tools_used _ (get_preloaded-Fits d session_key h)) h

-- The last of a list
abbrev pub EndsIn : String → List String → Type 0
EndsIn name xs = (front : List String) × (xs ≡ front ++ name ∷ [])

touch-EndsIn : (lru : List String) (name : String) → EndsIn name (touch lru name)
unfolding touch
touch-EndsIn lru name = elim (Bool-cases (contains lru name)) [
  | inl e ↦ rw e (keep (λ x. not (str_eq x name)) lru, refl)
  | inr e ↦ rw e (lru, refl)
]

evict-EndsIn :
    (capacity : ℕ) (front : List String) (name : String)
    → 0 < capacity
    → EndsIn name (evict capacity (front ++ name ∷ []))
unfolding evict
evict-EndsIn capacity [] name h = elim (Bool-cases (ltb capacity 1)) [
  | inl e ↦ absurd (omega (arith, h, ltb→lt capacity 1 e))
  | inr e ↦ rw e ([], refl)
]
evict-EndsIn capacity (x ∷ xs) name h =
    elim (Bool-cases (ltb capacity (length (x ∷ (xs ++ name ∷ []))))) [
      | inl e ↦ rw e (evict-EndsIn capacity xs name h)
      | inr e ↦ rw e (x ∷ xs, refl)
    ]

use_tools-snoc :
    (capacity : ℕ) (skip names lru : List String) (name : String)
    → contains skip name ≡ false
    → use_tools capacity skip (names ++ name ∷ []) lru
      ≡ evict capacity (touch (use_tools capacity skip names lru) name)
unfolding use_tools
use_tools-snoc capacity skip [] lru name e = rw e refl
use_tools-snoc capacity skip (n ∷ names) lru name e = use_tools-snoc capacity skip names _ name e

preloaded_after :
    (session_key : String) (names always_on : List String) (d : ToolDiscoveryState)
    → get_preloaded (update session_key names always_on d) session_key
      ≡ use_tools d.capacity (always_on ++ "tool_search" ∷ []) names (get_preloaded d session_key)
unfolding update get_preloaded
preloaded_after session_key names always_on d =
    let kept =
      use_tools d.capacity (always_on ++ "tool_search" ∷ []) names (get_preloaded d session_key) in
    ap or_empty (get-put d.unlocked session_key session_key kept)
    ∙ ap (λ (b : Bool). or_empty (if b then some kept else get d.unlocked session_key))
        (eq_refl session_key)

-- With a positive capacity, the tool used last, if it is neither always on nor tool_search, is
-- after update the newest tool of its session, whatever was used before it.
pub update-EndsIn :
    (session_key : String) (names always_on : List String) (name : String) (d : ToolDiscoveryState)
    → 0 < d.capacity
    → contains (always_on ++ "tool_search" ∷ []) name ≡ false
    → EndsIn name (get_preloaded (update session_key (names ++ name ∷ []) always_on d) session_key)
update-EndsIn session_key names always_on name d h e =
    let skip = always_on ++ "tool_search" ∷ [] in
    let old = get_preloaded d session_key in
    let kept = use_tools d.capacity skip names old in
    let (front, q) = touch-EndsIn kept name in
    let (before, r) = evict-EndsIn d.capacity front name h in
    (
      before,
      preloaded_after session_key (names ++ name ∷ []) always_on d
          ∙ use_tools-snoc d.capacity skip names old name e
          ∙ ap (evict d.capacity) q
          ∙ r,
    )
