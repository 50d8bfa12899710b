-- ===== src/Streams.antt =====
-- core/observe/stream_hub.py: `StreamHub`, which passes trace events on to subscribers.
pub mod Bounds
pub mod Delivery
use minicode_agent_runtime.Prelude.{
  ℕ, String, Bool, true, false, ◌+◌, ltb, ◌==◌, if◌then◌else◌, List, [], ◌∷◌, ◌++◌, Option, none,
  some, str_eq, length, or_text, truthy, not,
}
use minicode_agent_runtime.Prelude.Dict.{Dict, get, put}

-- `_SUBSCRIBER_QUEUE_MAX`
abbrev pub subscriber_queue_max : ℕ
subscriber_queue_max = 256

-- A queue object is a number, under which its content is kept; `fresh` is the next one. The loop
-- is known by its thread; `scheduled` are the calls of `_do_put` that wait for the loop.
pub record StreamHub (E : Type 0) : Type 0 where
  pub loop_thread : Option ℕ
  pub wild : List ℕ
  pub by_session : Dict (List ℕ)
  pub queues : ℕ → List E
  pub fresh : ℕ
  pub scheduled : List (ℕ × E)

abbrev pub stream_hub : {E : Type 0} → StreamHub E
stream_hub = record {
  loop_thread = none;
  wild = [];
  by_session = [];
  queues = λ q. [];
  fresh = 0;
  scheduled = [];
}

-- `self._by_session.get(key, [])`
unfoldable pub subscribers : Dict (List ℕ) → String → List ℕ
subscribers d key = elim (get d key) [ none ↦ [] | some qs ↦ qs ]

-- `list.remove`: the first occurrence, if there is one
unfoldable pub remove_first : ℕ → List ℕ → List ℕ
remove_first q [] = []
remove_first q (x ∷ xs) = let rest = remove_first q xs in if x == q then xs else x ∷ rest

-- A call from another thread than the loop's
unfoldable pub is_foreign : Option ℕ → ℕ → Bool
is_foreign none thread = false
is_foreign (some loop) thread = not (thread == loop)

abbrev pub rest_of : {E : Type 0} → List E → List E
rest_of [] = []
rest_of (e ∷ es) = es

module _ {E : Type 0} where
  -- `_record_loop`, where `running` is the thread of the loop that runs, if one does
  unfoldable pub record_loop : Option ℕ → StreamHub E → StreamHub E
  record_loop none h = h
  record_loop (some thread) h = record h { loop_thread = some thread }

  subscribe_at : String → StreamHub E → StreamHub E
  subscribe_at key h =
      if str_eq key "*"
      then record h { wild = h.wild ++ h.fresh ∷ []; fresh = h.fresh + 1 }
      else record h {
        by_session = put h.by_session key (subscribers h.by_session key ++ h.fresh ∷ []);
        fresh = h.fresh + 1;
      }

  -- `subscribe`
  unfoldable pub subscribe : Option ℕ → String → StreamHub E → ℕ × StreamHub E
  unfolding subscribe_at
  subscribe running session_key h =
      (h.fresh, subscribe_at (or_text session_key "*") (record_loop running h))

  remove_at : String → ℕ → Option (List ℕ) → StreamHub E → StreamHub E
  remove_at key q none h = h
  remove_at key q (some qs) h = record h { by_session = put h.by_session key (remove_first q qs) }

  -- `unsubscribe`
  unfoldable pub unsubscribe : ℕ → String → StreamHub E → StreamHub E
  unfolding remove_at
  unsubscribe q session_key h =
      let key = or_text session_key "*" in
      if str_eq key "*"
      then record h { wild = remove_first q h.wild }
      else remove_at key q (get h.by_session key) h

  -- `put_nowait` on a queue with that content: nothing if it is full
  unfoldable pub put_nowait : List E → E → List E
  put_nowait es e = if ltb (length es) subscriber_queue_max then es ++ e ∷ [] else es

  -- `_do_put`
  unfoldable pub do_put : ℕ → E → StreamHub E → StreamHub E
  do_put q e h = record h { queues = λ i. if i == q then put_nowait (h.queues i) e else h.queues i }

  -- `_put`
  unfoldable pub put_event : ℕ → ℕ → E → StreamHub E → StreamHub E
  unfolding is_foreign
  put_event thread q e h =
      if is_foreign h.loop_thread thread
      then record h { scheduled = h.scheduled ++ (q, e) ∷ [] }
      else do_put q e h

  unfoldable pub put_all : ℕ → List ℕ → E → StreamHub E → StreamHub E
  put_all thread [] e h = h
  put_all thread (q ∷ qs) e h = put_all thread qs e (put_event thread q e h)

  unfoldable pub targets : StreamHub E → String → List ℕ
  targets h session_key =
      if truthy session_key then h.wild ++ subscribers h.by_session session_key else h.wild

  -- `publish`; `session_key` is the event's.
  unfoldable pub publish : ℕ → String → E → StreamHub E → StreamHub E
  publish thread session_key e h = put_all thread (targets h session_key) e h

  -- The loop runs the first of the waiting calls.
  unfoldable pub run_scheduled : StreamHub E → StreamHub E
  run_scheduled h = elim h.scheduled [
    | [] ↦ h
    | (q, e) ∷ calls ↦ do_put q e (record h { scheduled = calls })
  ]

  -- A subscriber takes the first event of its queue.
  unfoldable pub take_event : ℕ → StreamHub E → StreamHub E
  take_event q h = record h { queues = λ i. if i == q then rest_of (h.queues i) else h.queues i }
