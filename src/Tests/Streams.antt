-- ===== src/Tests/Streams.antt =====
-- The stream hub: samples and examples for core/observe/stream_hub.py.
use minicode_agent_runtime.Prelude.{
  ℕ, ◌≡◌, refl, List, [], ◌∷◌, some, if◌then◌else◌, false, true, arith,
}
use minicode_agent_runtime.Prelude.Dict.{get}
use minicode_agent_runtime.Streams.{
  StreamHub, publish, targets, put_nowait, is_foreign, subscribers,
}
use minicode_agent_runtime.Streams.Delivery.{publish-queues, is_subscribed}
use minicode_agent_runtime.Streams.Bounds.{
  Bounded, Event, joined, published, took, left, history, history-Bounded,
}

-- One subscriber of everything, and one of the session "s"; the loop runs on thread 7.
abbrev hub : StreamHub ℕ
hub = record {
  loop_thread = some 7;
  wild = 0 ∷ [];
  by_session = ("s", 1 ∷ []) ∷ [];
  queues = λ q. [];
  fresh = 2;
  scheduled = [];
}

own_thread : is_foreign hub.loop_thread 7 ≡ false
unfolding is_foreign
own_thread = refl

other_thread : is_foreign hub.loop_thread 3 ≡ true
unfolding is_foreign
other_thread = refl

publish-queues_example :
    (publish 7 "t" 42 hub).queues 1 ≡ (if is_subscribed hub "t" 1 then put_nowait [] 42 else [])
unfolding targets subscribers get
publish-queues_example = publish-queues 7 "t" 42 hub 1 own_thread (refl, tt)

abbrev day : List (Event ℕ)
day = joined (some 7) "s" ∷ published 7 "s" 1 ∷ took 2 ∷ left 2 "s" ∷ []

history-Bounded_example : Bounded (history day hub)
history-Bounded_example = history-Bounded day hub (λ i. omega arith)
