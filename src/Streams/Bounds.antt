-- ===== src/Streams/Bounds.antt =====
-- core/observe/stream_hub.py: how full the queues of the subscribers are.
use minicode_agent_runtime.Prelude.{
  ℕ, String, Bool, false, ◌≤◌, List, [], ◌∷◌, Option, none, some, length, arith, Bool-cases, inl,
  inr, ◌==◌, ltb, ltb→lt, length-append, ◌||◌, or_text, str_eq,
}
use minicode_agent_runtime.Prelude.Dict.{get}
use minicode_agent_runtime.Streams.{
  StreamHub, subscribe, unsubscribe, put_nowait, do_put, is_foreign, put_event, put_all, targets,
  publish, run_scheduled, take_event, subscriber_queue_max, record_loop, rest_of, subscribe_at,
  remove_at,
}

abbrev pub among : ℕ → List ℕ → Bool
among q [] = false
among q (x ∷ xs) = q == x || among q xs

module _ {E : Type 0} where
  put_nowait-le :
      (es : List E) (e : E)
      → length es ≤ subscriber_queue_max
      → length (put_nowait es e) ≤ subscriber_queue_max
  unfolding put_nowait
  put_nowait-le es e h = elim (Bool-cases (ltb (length es) subscriber_queue_max)) [
    | inl q ↦
        rw q (omega (arith, length-append es (e ∷ []), ltb→lt (length es) subscriber_queue_max q))
    | inr q ↦ rw q h
  ]

  -- No queue holds more than the maximum.
  abbrev pub Bounded : StreamHub E → Type 0
  Bounded h = (i : ℕ) → length (h.queues i) ≤ subscriber_queue_max

  do_put-Bounded : (q : ℕ) (e : E) (h : StreamHub E) → Bounded h → Bounded (do_put q e h)
  unfolding do_put
  do_put-Bounded q e h b i = elim (Bool-cases (i == q)) [
    | inl k ↦ rw k (put_nowait-le (h.queues i) e (b i))
    | inr k ↦ rw k (b i)
  ]

  put_event-Bounded :
      (thread q : ℕ) (e : E) (h : StreamHub E) → Bounded h → Bounded (put_event thread q e h)
  unfolding put_event
  put_event-Bounded thread q e h b = elim (Bool-cases (is_foreign h.loop_thread thread)) [
    | inl k ↦ rw k b
    | inr k ↦ rw k (do_put-Bounded q e h b)
  ]

  put_all-Bounded :
      (thread : ℕ) (qs : List ℕ) (e : E) (h : StreamHub E)
      → Bounded h
      → Bounded (put_all thread qs e h)
  unfolding put_all
  put_all-Bounded thread [] e h b = b
  put_all-Bounded thread (q ∷ qs) e h b =
      put_all-Bounded thread qs e (put_event thread q e h) (put_event-Bounded thread q e h b)

-- What happens to a hub.
pub data Event (E : Type 0) : Type 0 where
  joined : Option ℕ → String → Event E
  left : ℕ → String → Event E
  published : ℕ → String → E → Event E
  loop_ran : Event E
  took : ℕ → Event E

module _ {E : Type 0} where
  unfoldable pub happen : Event E → StreamHub E → StreamHub E
  happen (joined running session_key) h = (subscribe running session_key h).1
  happen (left q session_key) h = unsubscribe q session_key h
  happen (published thread session_key e) h = publish thread session_key e h
  happen loop_ran h = run_scheduled h
  happen (took q) h = take_event q h

  unfoldable pub history : List (Event E) → StreamHub E → StreamHub E
  history [] h = h
  history (x ∷ xs) h = history xs (happen x h)

  record_loop-Bounded :
      (running : Option ℕ) (h : StreamHub E) → Bounded h → Bounded (record_loop running h)
  unfolding record_loop
  record_loop-Bounded none h b = b
  record_loop-Bounded (some thread) h b = b

  subscribe_at-Bounded : (key : String) (h : StreamHub E) → Bounded h → Bounded (subscribe_at key h)
  unfolding subscribe_at
  subscribe_at-Bounded key h b = elim (Bool-cases (str_eq key "*")) [
    | inl k ↦ rw k b
    | inr k ↦ rw k b
  ]

  remove_at-Bounded :
      (key : String) (q : ℕ) (qs : Option (List ℕ)) (h : StreamHub E)
      → Bounded h
      → Bounded (remove_at key q qs h)
  unfolding remove_at
  remove_at-Bounded key q none h b = b
  remove_at-Bounded key q (some qs) h b = b

  unsubscribe-Bounded :
      (q : ℕ) (session_key : String) (h : StreamHub E)
      → Bounded h
      → Bounded (unsubscribe q session_key h)
  unfolding unsubscribe
  unsubscribe-Bounded q session_key h b = elim (Bool-cases (str_eq (or_text session_key "*") "*")) [
    | inl k ↦ rw k b
    | inr k ↦ rw k (
        remove_at-Bounded (or_text session_key "*") q (get h.by_session (or_text session_key "*")) h
          b)
  ]

  run_scheduled-Bounded : (h : StreamHub E) → Bounded h → Bounded (run_scheduled h)
  unfolding run_scheduled
  run_scheduled-Bounded h b = go h.scheduled
    where
      go :
          (calls : List (ℕ × E))
          → Bounded
              (elim calls [ [] ↦ h | (q, e) ∷ rest ↦ do_put q e (record h { scheduled = rest }) ])
      go [] = b
      go ((q, e) ∷ rest) = do_put-Bounded q e (record h { scheduled = rest }) b

  rest_of-le :
      (es : List E) → length es ≤ subscriber_queue_max → length (rest_of es) ≤ subscriber_queue_max
  rest_of-le [] h = h
  rest_of-le (e ∷ es) h = omega (arith, h)

  take_event-Bounded : (q : ℕ) (h : StreamHub E) → Bounded h → Bounded (take_event q h)
  unfolding take_event
  take_event-Bounded q h b i = elim (Bool-cases (i == q)) [
    | inl k ↦ rw k (rest_of-le (h.queues i) (b i))
    | inr k ↦ rw k (b i)
  ]

  happen-Bounded : (x : Event E) (h : StreamHub E) → Bounded h → Bounded (happen x h)
  unfolding happen subscribe publish
  happen-Bounded (joined running session_key) h b =
      subscribe_at-Bounded (or_text session_key "*") (record_loop running h)
        (record_loop-Bounded running h b)
  happen-Bounded (left q session_key) h b = unsubscribe-Bounded q session_key h b
  happen-Bounded (published thread session_key e) h b =
      put_all-Bounded thread (targets h session_key) e h b
  happen-Bounded loop_ran h b = run_scheduled-Bounded h b
  happen-Bounded (took q) h b = take_event-Bounded q h b

  -- If no queue of a hub holds more than 256 events, none does after any sequence of
  -- subscriptions, ends of them, publications from any thread, runs of scheduled calls and events
  -- taken.
  pub history-Bounded : (xs : List (Event E)) (h : StreamHub E) → Bounded h → Bounded (history xs h)
  unfolding history
  history-Bounded [] h b = b
  history-Bounded (x ∷ xs) h b = history-Bounded xs (happen x h) (happen-Bounded x h b)
