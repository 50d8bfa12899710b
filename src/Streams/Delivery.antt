-- ===== src/Streams/Delivery.antt =====
-- core/observe/stream_hub.py: who gets an event.
use mathlib.Core.List.{append-nil, append_assoc}
use minicode_agent_runtime.Prelude.{
  ℕ, String, Bool, true, false, ◌≡◌, refl, List, [], ◌∷◌, ◌++◌, length, Bool-cases, inl, inr, ◌==◌,
  ==_iff, if◌then◌else◌, ap, sym, ◌∙◌, subst, ◌||◌, suc, truthy, arith, ◌&&◌,
}
use minicode_agent_runtime.Streams.{
  StreamHub, put_nowait, do_put, is_foreign, put_event, put_all, targets, publish, run_scheduled,
  subscribers,
}
use Prim.Native.Nat.{zero}

abbrev pub among : ℕ → List ℕ → Bool
among q [] = false
among q (x ∷ xs) = q == x || among q xs

-- The calls of `_do_put` for an event
abbrev calls_of : {E : Type 0} → List ℕ → E → List (ℕ × E)
calls_of [] e = []
calls_of (q ∷ qs) e = (q, e) ∷ calls_of qs e

-- No queue twice.
abbrev pub Once : List ℕ → Type 0
Once [] = Unit
Once (x ∷ xs) = (among x xs ≡ false) × Once xs

among-append : (i : ℕ) (xs ys : List ℕ) → among i (xs ++ ys) ≡ (among i xs || among i ys)
among-append i [] ys = refl
among-append i (x ∷ xs) ys = ground (arith, among-append i xs ys)

module _ {E : Type 0} where
  do_put-queues :
      (q : ℕ) (e : E) (h : StreamHub E) (i : ℕ)
      → (do_put q e h).queues i ≡ (if i == q then put_nowait (h.queues i) e else h.queues i)
  unfolding do_put
  do_put-queues q e h i = refl

  put_event-direct :
      (thread q : ℕ) (e : E) (h : StreamHub E)
      → is_foreign h.loop_thread thread ≡ false
      → put_event thread q e h ≡ do_put q e h
  unfolding put_event
  put_event-direct thread q e h k = rw k refl

  after_first :
      (q : ℕ) (qs : List ℕ) (e : E) (h : StreamHub E) (i : ℕ)
      → among q qs ≡ false
      → (if among i qs then put_nowait ((do_put q e h).queues i) e else (do_put q e h).queues i)
        ≡ (if among i (q ∷ qs) then put_nowait (h.queues i) e else h.queues i)
  unfolding do_put
  after_first q qs e h i new = elim (Bool-cases (i == q)) [
    | inl k ↦
        let absent : among i qs ≡ false =
          subst (λ (x : ℕ). among x qs ≡ false) (sym ((==_iff i q).0 k)) new in
        rw (k, absent) refl
    | inr k ↦ rw k refl
  ]

  put_all-queues :
      (thread : ℕ) (qs : List ℕ) (e : E) (h : StreamHub E) (i : ℕ)
      → is_foreign h.loop_thread thread ≡ false
      → Once qs
      → (put_all thread qs e h).queues i
        ≡ (if among i qs then put_nowait (h.queues i) e else h.queues i)
  unfolding put_all
  put_all-queues thread [] e h i k once = refl
  put_all-queues thread (q ∷ qs) e h i k once =
      ap (λ (g : StreamHub E). (put_all thread qs e g).queues i) (put_event-direct thread q e h k)
      ∙ put_all-queues thread qs e (do_put q e h) i (unfold do_put in k) once.1
      ∙ after_first q qs e h i once.0

  -- A queue of a subscriber of everything, or of one of that session.
  abbrev pub is_subscribed : StreamHub E → String → ℕ → Bool
  is_subscribed h session_key i =
      among i h.wild || (truthy session_key && among i (subscribers h.by_session session_key))

  targets-subscribed :
      (h : StreamHub E) (session_key : String) (i : ℕ)
      → among i (targets h session_key) ≡ is_subscribed h session_key i
  unfolding targets
  targets-subscribed h session_key i = elim (Bool-cases (truthy session_key)) [
    | inl e ↦ rw e (among-append i h.wild (subscribers h.by_session session_key))
    | inr e ↦ rw e (ground arith)
  ]

  -- Published on the thread of the loop to targets none of which stands twice, an event is put at
  -- the end of the queue of every subscriber of all sessions or of its own session that is not
  -- full, and every other queue stays as it is.
  pub publish-queues :
      (thread : ℕ) (session_key : String) (e : E) (h : StreamHub E) (i : ℕ)
      → is_foreign h.loop_thread thread ≡ false
      → Once (targets h session_key)
      → (publish thread session_key e h).queues i
        ≡ (if is_subscribed h session_key i then put_nowait (h.queues i) e else h.queues i)
  unfolding publish
  publish-queues thread session_key e h i k once =
      put_all-queues thread (targets h session_key) e h i k once
      ∙ ap (λ (b : Bool). if b then put_nowait (h.queues i) e else h.queues i)
          (targets-subscribed h session_key i)

  -- The loop runs that many of the waiting calls.
  unfoldable pub drain : ℕ → StreamHub E → StreamHub E
  drain zero h = h
  drain (suc n) h = drain n (run_scheduled h)

  -- Calls that wait in front of others, run in their order.
  unfoldable pub run_calls : List (ℕ × E) → StreamHub E → StreamHub E
  run_calls [] h = h
  run_calls ((q, e) ∷ calls) h = run_calls calls (do_put q e h)

  drain-calls :
      (calls : List (ℕ × E)) (h : StreamHub E)
      → drain (length calls) (record h { scheduled = calls })
        ≡ run_calls calls (record h { scheduled = [] })
  unfolding drain run_calls run_scheduled do_put
  drain-calls [] h = refl
  drain-calls ((q, e) ∷ calls) h = drain-calls calls (do_put q e h)

  put_all-scheduled :
      (thread : ℕ) (qs : List ℕ) (e : E) (h : StreamHub E)
      → is_foreign h.loop_thread thread ≡ true
      → put_all thread qs e h ≡ record h { scheduled = h.scheduled ++ calls_of qs e }
  unfolding put_all put_event
  put_all-scheduled thread [] e h k =
      ap (λ (s : List (ℕ × E)). record h { scheduled = s }) (sym (append-nil h.scheduled))
  put_all-scheduled thread (q ∷ qs) e h k = rw k (
      put_all-scheduled thread qs e (record h { scheduled = h.scheduled ++ (q, e) ∷ [] }) k
      ∙ ap (λ (s : List (ℕ × E)). record h { scheduled = s })
          (append_assoc h.scheduled ((q, e) ∷ []) (calls_of qs e)))

  run_calls-put_all :
      (thread : ℕ) (qs : List ℕ) (e : E) (h : StreamHub E)
      → is_foreign h.loop_thread thread ≡ false
      → run_calls (calls_of qs e) h ≡ put_all thread qs e h
  unfolding run_calls put_all
  run_calls-put_all thread [] e h k = refl
  run_calls-put_all thread (q ∷ qs) e h k =
      run_calls-put_all thread qs e (do_put q e h) (unfold do_put in k)
      ∙ ap (λ (g : StreamHub E). put_all thread qs e g) (sym (put_event-direct thread q e h k))

  length-calls : (qs : List ℕ) (e : E) → length (calls_of qs e) ≡ length qs
  length-calls [] e = refl
  length-calls (q ∷ qs) e = ap suc (length-calls qs e)

  -- An event that is published from another thread, with no call waiting for the loop, leaves the
  -- hub, once the loop has run as many waiting calls as there are targets, as if it had been
  -- published on the thread of the loop.
  pub publish-foreign :
      (foreign loop : ℕ) (session_key : String) (e : E) (h : StreamHub E)
      → is_foreign h.loop_thread foreign ≡ true
      → is_foreign h.loop_thread loop ≡ false
      → h.scheduled ≡ []
      → drain (length (targets h session_key)) (publish foreign session_key e h)
        ≡ publish loop session_key e h
  unfolding publish
  publish-foreign foreign loop session_key e h k l none_wait =
      let qs = targets h session_key in
      let calls = calls_of qs e in
      let idle : StreamHub E = record h { scheduled = [] } in
      let same : idle ≡ h = ap (λ (s : List (ℕ × E)). record h { scheduled = s }) (sym none_wait) in
      ap (drain (length qs)) (put_all-scheduled foreign qs e h k)
      ∙ ap (λ (s : List (ℕ × E)). drain (length qs) (record h { scheduled = s ++ calls })) none_wait
      ∙ ap (λ (n : ℕ). drain n (record h { scheduled = calls })) (sym (length-calls qs e))
      ∙ drain-calls calls h
      ∙ ap (run_calls calls) same
      ∙ run_calls-put_all loop qs e h l
