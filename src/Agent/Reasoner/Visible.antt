-- ===== src/Agent/Reasoner/Visible.antt =====
-- agent/core/reasoner.py: which tools a turn runs, by the names that are visible.
use minicode_agent_runtime.Prelude.{
  ℕ, String, Bool, true, false, ◌≡◌, refl, if◌then◌else◌, List, [], ◌∷◌, ◌++◌, Option, none, some,
  Bool-cases, inl, inr, contains, str_eq, ◌&&◌, All, All-append, All-map_of, arith, eq_iff,
}
use minicode_agent_runtime.Agent.Reasoner.{ToolCall, LoopState, Services, minus}
use minicode_agent_runtime.Agent.Reasoner.Calls.{
  run_call, is_visible, note_call, refuse_call, execute_call, unlock, is_success,
}
use minicode_agent_runtime.Agent.Reasoner.Loop.{run, start_state}
use minicode_agent_runtime.Agent.Reasoner.Loop.Invariants.{iterate-EndsKept, Told}

abbrev pub append_if : Bool → List String → String → List String
append_if b names name = if b then names ++ name ∷ [] else names

All-append_if :
    (P : String → Type 0) (b : Bool) (names : List String) (name : String)
    → All P names
    → P name
    → All P (append_if b names name)
All-append_if P true names name h k = All-append P names (name ∷ []) h (k, tt)
All-append_if P false names name h k = h

contains-append :
    (xs ys : List String) (x : String) → contains xs x ≡ true → contains (xs ++ ys) x ≡ true
contains-append [] ys x h = ground arith
contains-append (z ∷ xs) ys x h = ground (arith, contains-append xs ys x)

contains-append_none :
    (xs ys : List String) (x : String)
    → contains xs x ≡ false
    → contains ys x ≡ false
    → contains (xs ++ ys) x ≡ false
contains-append_none [] ys x h k = k
contains-append_none (z ∷ xs) ys x h k = ground (arith, contains-append_none xs ys x)

visible_ne :
    (visible : Option (List String)) (x y : String)
    → is_visible visible x ≡ true
    → is_visible visible y ≡ false
    → str_eq x y ≡ false
visible_ne visible x y hx hy = elim (Bool-cases (str_eq x y)) [
  | inl e ↦ absurd (cc (hx, hy, (eq_iff x y).0 e))
  | inr e ↦ e
]

pub append_if_none :
    (b : Bool) (names : List String) (x y : String)
    → contains names y ≡ false
    → str_eq x y ≡ false
    → contains (append_if b names x) y ≡ false
append_if_none true names x y h e = contains-append_none names (x ∷ []) y h (rw e refl)
append_if_none false names x y h e = h

contains-minus :
    (xs ys : List String) (x : String) → contains xs x ≡ false → contains (minus xs ys) x ≡ false
contains-minus [] ys x h = refl
contains-minus (z ∷ xs) ys x h = ground (arith, contains-minus xs ys x)

unlock-IsVisible :
    (done : Bool) (newly : List String) (visible : Option (List String)) (name : String)
    → is_visible visible name ≡ true
    → is_visible (unlock done newly visible) name ≡ true
unfolding unlock
unlock-IsVisible done newly none name h = refl
unlock-IsVisible true newly (some names) name h = contains-append names (minus newly names) name h
unlock-IsVisible false newly (some names) name h = h

module _ {Any W : Type 0} (s : Services Any W) where
  -- What a tool call does to the names
  pub run_call-names :
      (P : List String → Option (List String) → Type 0) (c : ToolCall Any) (st : LoopState Any W)
      → P st.tools_used st.visible
      → (is_visible st.visible c.name ≡ true
          → let r = (execute_call s c st).0 in
            let done = is_success r.status in
            P (append_if done st.tools_used c.name) (
              unlock
                (done && str_eq c.name "tool_search")
                (s.unlocked (s.normalize r.output).text)
                st.visible))
      → P (run_call s c st).1.tools_used (run_call s c st).1.visible
  unfolding run_call note_call refuse_call
  run_call-names P c st h k = elim (Bool-cases (is_visible st.visible c.name)) [
    | inl e ↦ rw e (k e)
    | inr e ↦ rw e h
  ]

  -- Every tool that was used is visible, and every name that was visible is.
  abbrev pub AllVisible : Option (List String) → List String → Option (List String) → Type 0
  AllVisible initial used visible =
      All (λ name. is_visible visible name ≡ true) used
      × ((name : String) → is_visible initial name ≡ true → is_visible visible name ≡ true)

  run_call-AllVisible :
      (initial : Option (List String)) (c : ToolCall Any) (st : LoopState Any W)
      → AllVisible initial st.tools_used st.visible
      → AllVisible initial (run_call s c st).1.tools_used (run_call s c st).1.visible
  run_call-AllVisible initial c st h = run_call-names (AllVisible initial) c st h (λ e.
      let r = (execute_call s c st).0 in
      let done = is_success r.status in
      noted (s.unlocked (s.normalize r.output).text) (done && str_eq c.name "tool_search") e done)
    where
      noted :
          (newly : List String) (searched : Bool)
          → is_visible st.visible c.name ≡ true
          → (done : Bool)
          → AllVisible initial
              (append_if done st.tools_used c.name)
              (unlock searched newly st.visible)
      noted newly searched e done =
          let grows = unlock-IsVisible searched newly st.visible in
          (
            All-append_if _ done st.tools_used c.name (All-map_of _ _ st.tools_used grows h.0)
                (grows c.name e),
            λ name v. grows name (h.1 name v),
          )

  -- In whatever way run ends with a result, every tool that succeeded is among the visible names
  -- of the result, and so is every name that was visible at the start.
  pub run-AllVisible :
      (max_iterations : ℕ) (tool_search_enabled : Bool) (initial : List Any)
      (preloaded : Option (List String)) (w : W)
      → Told
          (AllVisible (start_state s tool_search_enabled initial preloaded w).visible)
          (run s max_iterations tool_search_enabled initial preloaded w).0
  unfolding run start_state
  run-AllVisible max_iterations tool_search_enabled initial preloaded w =
      let st = start_state s tool_search_enabled initial preloaded w in
      (iterate-EndsKept s (AllVisible st.visible) (run_call-AllVisible st.visible) max_iterations 0
        st (tt, λ name v. v)).0

  -- A name that is neither used nor visible
  abbrev pub Hidden : String → List String → Option (List String) → Type 0
  Hidden name used visible = (contains used name ≡ false) × (is_visible visible name ≡ false)

  module _ (name : String)
      (locked : (text : String) → contains (s.unlocked text) name ≡ false) where
    unlock-Hidden :
        (searched : Bool) (text : String) (visible : Option (List String))
        → is_visible visible name ≡ false
        → is_visible (unlock searched (s.unlocked text) visible) name ≡ false
    unfolding unlock
    unlock-Hidden searched text none h = h
    unlock-Hidden true text (some names) h =
        contains-append_none names (minus (s.unlocked text) names) name h
          (contains-minus (s.unlocked text) names name (locked text))
    unlock-Hidden false text (some names) h = h

    run_call-Hidden :
        (c : ToolCall Any) (st : LoopState Any W)
        → Hidden name st.tools_used st.visible
        → Hidden name (run_call s c st).1.tools_used (run_call s c st).1.visible
    run_call-Hidden c st h = run_call-names (Hidden name) c st h (λ e.
        let r = (execute_call s c st).0 in
        (
          append_if_none (is_success r.status) st.tools_used c.name name h.0
              (visible_ne st.visible c.name name e h.1),
          unlock-Hidden (is_success r.status && str_eq c.name "tool_search")
              (s.normalize r.output).text st.visible h.1,
        ))

    -- A tool that is not visible at the start, and that no result of tool_search names, is not
    -- visible at the end either, and no call of it succeeds.
    pub run-Hidden :
        (max_iterations : ℕ) (tool_search_enabled : Bool) (initial : List Any)
        (preloaded : Option (List String)) (w : W)
        → is_visible (start_state s tool_search_enabled initial preloaded w).visible name ≡ false
        → Told (Hidden name) (run s max_iterations tool_search_enabled initial preloaded w).0
    unfolding run start_state
    run-Hidden max_iterations tool_search_enabled initial preloaded w h =
        (iterate-EndsKept s (Hidden name) run_call-Hidden max_iterations 0
          (start_state s tool_search_enabled initial preloaded w) (refl, h)).0
