-- ===== src/Agent/Reasoner/Protocol.antt =====
-- agent/core/reasoner.py: every tool call of the model is answered, in order, before the next turn.
use mathlib.Core.List.{append_assoc}
use minicode_agent_runtime.Prelude.{
  Bool, true, false, All, All-append, String, ◌≡◌, refl, ap, ◌∙◌, if◌then◌else◌, List, [], ◌∷◌,
  ◌++◌, Option, none, some, str_eq,
}
use minicode_agent_runtime.Prelude.{eq_refl, Bool-cases, inl, inr}
use minicode_agent_runtime.ToolHooks.{ToolExecutionResult}
use minicode_agent_runtime.Agent.Reasoner.Calls.{
  refuse_call, note_call, run_call, run_calls, result_messages, block_message, execute_call,
  is_visible, not_loaded,
}
use minicode_agent_runtime.Agent.Reasoner.{
  ToolResult, CallRecord, LoopState, Services, ToolCall, Message, given, assistant_calls,
  tool_result, user_blocks, runtime_hint, assistant,
}

abbrev pub and_then :
    Option (List String) → (List String → Option (List String)) → Option (List String)
and_then none f = none
and_then (some is) f = f is

module _ {Any : Type 0} where
  abbrev pub ids : List (ToolCall Any) → List String
  ids [] = []
  ids (c ∷ cs) = c.id ∷ ids cs

  -- The ids that wait for a result after a message; none if the message must not stand there.
  abbrev pub advance : List String → Message Any → Option (List String)
  advance (i ∷ is) (tool_result j content) = if str_eq i j then some is else none
  advance [] (tool_result j content) = none
  advance is (user_blocks name blocks) = some is
  advance [] (assistant_calls content calls) = some (ids calls)
  advance [] (given m) = some []
  advance [] (runtime_hint t) = some []
  advance [] (assistant content) = some []
  advance (i ∷ is) (assistant_calls content calls) = none
  advance (i ∷ is) (given m) = none
  advance (i ∷ is) (runtime_hint t) = none
  advance (i ∷ is) (assistant content) = none

  -- The ids that wait after messages
  abbrev pub waiting : List String → List (Message Any) → Option (List String)
  waiting is [] = some is
  waiting is (m ∷ ms) = and_then (advance is m) (λ js. waiting js ms)

  -- Every call has had its result, in the order of the calls, before anything but the contents of
  -- a file was written.
  abbrev pub AllAnswered : List (Message Any) → Type 0
  AllAnswered ms = waiting [] ms ≡ some []

  waiting-append :
      (is : List String) (xs ys : List (Message Any))
      → waiting is (xs ++ ys) ≡ and_then (waiting is xs) (λ js. waiting js ys)
  waiting-append is [] ys = refl
  waiting-append is (x ∷ xs) ys = then_append (advance is x) (λ js. waiting-append js xs ys)
    where
      then_append :
          (o : Option (List String))
          → ((js : List String)
              → waiting js (xs ++ ys) ≡ and_then (waiting js xs) (λ ks. waiting ks ys))
          → and_then o (λ js. waiting js (xs ++ ys))
            ≡ and_then (and_then o (λ js. waiting js xs)) (λ js. waiting js ys)
      then_append none ih = refl
      then_append (some js) ih = ih js

  pub waiting-snoc :
      (is js : List String) (xs ys : List (Message Any))
      → waiting is xs ≡ some js
      → waiting is (xs ++ ys) ≡ waiting js ys
  waiting-snoc is js xs ys e =
      waiting-append is xs ys ∙ ap (λ o. and_then o (λ ks. waiting ks ys)) e

  blocks-waiting :
      (is : List String) (name : String) (blocks : List Any)
      → waiting is (block_message name blocks) ≡ some is
  blocks-waiting [] name [] = refl
  blocks-waiting [] name (b ∷ bs) = refl
  blocks-waiting (i ∷ is) name [] = refl
  blocks-waiting (i ∷ is) name (b ∷ bs) = refl

  result-waiting :
      (i : String) (is : List String) (name : String) (r : ToolResult Any)
      → waiting (i ∷ is) (result_messages i name r) ≡ some is
  unfolding result_messages
  result-waiting i is name r = rw (eq_refl i) (blocks-waiting is name r.content_blocks)

  -- A message that a turn adds to those it was given
  abbrev pub is_added : Message Any → Bool
  is_added (given m) = false
  is_added (assistant_calls content calls) = true
  is_added (tool_result i content) = true
  is_added (user_blocks name blocks) = true
  is_added (runtime_hint t) = true
  is_added (assistant content) = true

  -- Behind the messages of `base`, as they are, only added messages follow, after which `is` wait.
  abbrev pub Continues : List (Message Any) → List String → List (Message Any) → Type 0
  Continues base is ms =
      (rest : List (Message Any)) × (ms ≡ base ++ rest)
      × All (λ m. is_added m ≡ true) rest
      × (waiting [] rest ≡ some is)

  pub Continues-append :
      (base : List (Message Any)) (is js : List String) (ms ys : List (Message Any))
      → Continues base is ms
      → waiting is ys ≡ some js
      → All (λ m. is_added m ≡ true) ys
      → Continues base js (ms ++ ys)
  Continues-append base is js ms ys (rest, e, all, h) k added = (
    rest ++ ys,
    ap (λ l. l ++ ys) e ∙ append_assoc base rest ys,
    All-append (λ m. is_added m ≡ true) rest ys all added,
    waiting-snoc [] is rest ys h ∙ k,
  )

  result-IsAdded :
      (i name : String) (r : ToolResult Any)
      → All (λ m. is_added m ≡ true) (result_messages i name r)
  unfolding result_messages
  result-IsAdded i name r = (refl, blocks_added r.content_blocks)
    where
      blocks_added : (blocks : List Any) → All (λ m. is_added m ≡ true) (block_message name blocks)
      blocks_added [] = tt
      blocks_added (b ∷ bs) = (refl, tt)

module _ {Any W : Type 0} (s : Services Any W) (base : List (Message Any)) where
  -- The ids that wait after the messages of a state
  abbrev pub Waits : LoopState Any W → List String → Type 0
  Waits st is = Continues base is st.messages

  refuse_call-Waits :
      (c : ToolCall Any) (is : List String) (st : LoopState Any W)
      → Waits st (c.id ∷ is)
      → Waits (refuse_call s c st).1 is
  unfolding refuse_call
  refuse_call-Waits c is st h =
      Continues-append base (c.id ∷ is) is st.messages (tool_result c.id (not_loaded c.name) ∷ []) h
        (rw (eq_refl c.id) refl) (refl, tt)

  note_call-Waits :
      (c : ToolCall Any) (r : ToolExecutionResult Any) (w : W) (is : List String)
      (st : LoopState Any W)
      → Waits st (c.id ∷ is)
      → Waits (note_call s c r w st).1 is
  unfolding note_call
  note_call-Waits c r w is st h =
      let result = s.normalize r.output in
      Continues-append base (c.id ∷ is) is st.messages (result_messages c.id c.name result) h
        (result-waiting c.id is c.name result) (result-IsAdded c.id c.name result)

  run_call-Waits :
      (c : ToolCall Any) (is : List String) (st : LoopState Any W)
      → Waits st (c.id ∷ is)
      → Waits (run_call s c st).1 is
  unfolding run_call
  run_call-Waits c is st h = elim (Bool-cases (is_visible st.visible c.name)) [
    | inl e ↦ rw e (note_call-Waits c (execute_call s c st).0 (execute_call s c st).1 is st h)
    | inr e ↦ rw e (refuse_call-Waits c is st h)
  ]

  pub run_calls-Waits :
      (cs : List (ToolCall Any)) (records : List (CallRecord Any)) (st : LoopState Any W)
      → Waits st (ids cs)
      → Waits (run_calls s cs records st).1 []
  unfolding run_calls
  run_calls-Waits [] records st h = h
  run_calls-Waits (c ∷ cs) records st h =
      run_calls-Waits cs (records ++ (run_call s c st).0 ∷ []) (run_call s c st).1
        (run_call-Waits c (ids cs) st h)

  pub append-Continues :
      (ms : List (Message Any)) (m : Message Any)
      → Continues base [] ms
      → advance [] m ≡ some []
      → is_added m ≡ true
      → Continues base [] (ms ++ m ∷ [])
  append-Continues ms m h e added =
      Continues-append base [] [] ms (m ∷ []) h (rw e refl) (added, tt)
