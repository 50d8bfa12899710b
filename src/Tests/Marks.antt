-- ===== src/Tests/Marks.antt =====
-- The store of the proactive agent: samples and examples for proactive_v2/state.py.
use minicode_agent_runtime.Prelude.{
  ℕ, true, false, ◌≡◌, refl, List, [], ◌∷◌, none, arith, strip, ◌*◌,
}
use minicode_agent_runtime.Proactive.State.{
  empty_state, is_item_seen, dedupe_source_key, recent, mark_items_seen, cleanup, hour,
  mark_delivery,
}
use minicode_agent_runtime.Proactive.State.Recent.{
  Operation, seen, cleaned, delivered, after_calls, last_seen, is_item_seen-last_seen, step,
}

abbrev calls : List (ℕ × Operation)
calls =
    (hour, seen (("mcp:news:42", "a") ∷ []))
    ∷ (2 * hour, delivered "cli:1" "d")
    ∷ (3 * hour, cleaned 5 5 5 0)
    ∷ []

is_item_seen-last_seen_example :
    is_item_seen "mcp:news:43" "a" 5 (4 * hour) (after_calls calls empty_state)
    ≡ recent (last_seen calls (dedupe_source_key "mcp:news:43") "a" none) 5 (4 * hour)
is_item_seen-last_seen_example =
    is_item_seen-last_seen calls "mcp:news:43" "a" 5 (4 * hour)
      (omega arith, (omega arith, ((omega arith, omega arith), tt)))

seen_still : is_item_seen "mcp:news:43" "a" 5 (6 * hour) (after_calls calls empty_state) ≡ true
unfolding is_item_seen step dedupe_source_key strip mark_items_seen cleanup mark_delivery
seen_still = refl

seen_no_more : is_item_seen "mcp:news:43" "a" 5 (7 * hour) (after_calls calls empty_state) ≡ false
unfolding is_item_seen step dedupe_source_key strip mark_items_seen cleanup mark_delivery
seen_no_more = refl
