-- ===== src/Policies/HistoryRoute/Outcome.antt =====
-- agent/policies/history_route.py: when the memories are left out, and the query they get.
use minicode_agent_runtime.Prelude.{
  ℕ, String, Bool, true, false, ◌≡◌, if◌then◌else◌, str_eq, truthy, or_text, not, ◌&&◌, ◌||◌,
  Bool-cases, inl, inr, arith,
}
use minicode_agent_runtime.Policies.HistoryRoute.{
  Source, llm, fallback, Confidence, high, medium, low, Metadata, Reply, failed, no_object, object,
  TextLib, or_default, strip_multiple_choice_block, is_flow_execution_state, build_decision,
  conclude, after_reply, decide,
}

module _ (lib : TextLib) where
  -- The model says, with a high or a medium confidence, that nothing is to be retrieved.
  abbrev pub says_no : Reply → Bool
  says_no failed = false
  says_no no_object = false
  says_no (object decision rewritten confidence) =
      let c = lib.lower (or_default confidence "medium") in
      str_eq (lib.upper (or_default decision "")) "NO_RETRIEVE"
      && (str_eq c "high" || str_eq c "medium")

  -- The model did not answer with a high or a medium confidence.
  abbrev pub fails_open : Reply → Bool
  fails_open failed = true
  fails_open no_object = true
  fails_open (object decision rewritten confidence) =
      let c = lib.lower (or_default confidence "medium") in
      not (str_eq c "high" || str_eq c "medium")

  abbrev pub source_of : Reply → Source
  source_of failed = fallback
  source_of no_object = llm
  source_of (object decision rewritten confidence) = llm

  -- The confidence of a reply: low, unless it names a better one.
  abbrev pub confidence_of : Reply → Confidence
  confidence_of failed = low
  confidence_of no_object = low
  confidence_of (object decision rewritten confidence) =
      let c = lib.lower (or_default confidence "medium") in
      if str_eq c "high" then high else (if str_eq c "medium" then medium else low)

  abbrev is_low : Confidence → Bool
  is_low low = true
  is_low medium = false
  is_low high = false

  or_text-truthy : (a b : String) → truthy b ≡ true → truthy (or_text a b) ≡ true
  or_text-truthy a b h = ground arith

  conclude-query :
      (latency : ℕ) (query decision rewritten : String) (c : Confidence)
      → truthy query ≡ true
      → truthy (conclude lib latency query decision rewritten c).rewritten_query ≡ true
  unfolding conclude build_decision
  conclude-query latency query decision rewritten low h = or_text-truthy rewritten query h
  conclude-query latency query decision rewritten high h = elim (Bool-cases (truthy rewritten)) [
    | inl e ↦ rw e e
    | inr e ↦ rw e h
  ]
  conclude-query latency query decision rewritten medium h = elim (Bool-cases (truthy rewritten)) [
    | inl e ↦ rw e e
    | inr e ↦ rw e h
  ]

  after_reply-query :
      (latency : ℕ) (query : String) (r : Reply)
      → truthy query ≡ true
      → truthy (after_reply lib latency query r).rewritten_query ≡ true
  unfolding after_reply build_decision
  after_reply-query latency query failed h = h
  after_reply-query latency query no_object h = conclude-query latency query "" "" _ h
  after_reply-query latency query (object decision rewritten confidence) h =
      conclude-query latency query _ _ _ h

  -- For a message that is not empty the query that decide gives is not empty, on every branch.
  pub decide-query :
      (enabled : Bool) (ask : String → String → Reply) (latency : ℕ) (user_msg : String)
      (metadata : Metadata) (recent_history : String)
      → truthy user_msg ≡ true
      → truthy (decide lib enabled ask latency user_msg metadata recent_history).rewritten_query
        ≡ true
  unfolding decide build_decision
  decide-query enabled ask latency user_msg metadata recent_history h =
      let query = or_text (strip_multiple_choice_block lib user_msg) user_msg in
      let nonempty = or_text-truthy (strip_multiple_choice_block lib user_msg) user_msg h in
      elim (Bool-cases (not enabled)) [
        | inl k ↦ rw k nonempty
        | inr k ↦ elim (Bool-cases (is_flow_execution_state lib user_msg metadata)) [
          | inl e ↦ rw (k, e) nonempty
          | inr e ↦ rw (k, e) (after_reply-query latency query (ask query recent_history) nonempty)
        ]
      ]
