-- ===== src/Tests/Routing.antt =====
-- The model router: samples and examples for agent/provider_router.py.
use minicode_agent_runtime.Prelude.{
  ◌≡◌, ◌≤◌, refl, none, some, List, [], ◌∷◌, arith, ℕ, true, ◌==◌, ap, ◌*◌, ◌↔◌, ◌+◌, ◌-◌,
}
use minicode_agent_runtime.ToolHooks.{Result, ok, raised}
use minicode_agent_runtime.Router.{
  TokenBucket, token_bucket, ModelRoute, LlmResponse, ModelRouter, State, fallback, acquire,
  refilled, token, one_rpm,
}
use minicode_agent_runtime.Router.Limits.{granted, granted-le, acquire-passes_iff}
use minicode_agent_runtime.Router.Dispatch.{
  after_ask, chat, select, model_router, sorted_by, default_cost_table, insert_by, hinted,
  index_names, select_by, try_routes, update_costs, try_route, pass_bucket, after_ask, record_cost,
  used, set_bucket,
}
use minicode_agent_runtime.Router.Dispatch.Fallback.{chat-fallback, ServedByPriority}
use mathlib.Core.Bool.{false}
use minicode_agent_runtime.Prelude.Dict.{put}

-- Two requests per minute, used up at 1 s.
abbrev slow : TokenBucket
slow = record { rate = 2000; tokens = 120000000; updated = 1000 }

abbrev burst : List ℕ
burst = 1000 ∷ 1000 ∷ 1000 ∷ 31000 ∷ []

granted-burst : granted burst slow ≡ 3
unfolding granted acquire refilled
granted-burst = refl

granted-le_example : granted burst slow * token ≤ 120000000 + (31000 - 1000) * 2000
granted-le_example =
    granted-le burst 31000 slow
      (omega arith, (omega arith, (omega arith, (omega arith, omega arith))))

acquire-passes_iff_example :
    ((acquire 1000 1 slow).0 ≡ true)
    ↔ ((one_rpm ≤ 2000) × (token ≤ 120000000 + (1000 - 1000) * 2000))
acquire-passes_iff_example = acquire-passes_iff 1000 slow

abbrev main : ModelRoute
main = record { ref = 0; name = "qwen-flash"; priority = 1; max_rpm = 0 }

abbrev spare : ModelRoute
spare = record { ref = 1; name = "qwen3.6-plus"; priority = 5; max_rpm = 1000 }

abbrev given : List ModelRoute
given = spare ∷ main ∷ []

abbrev router : ModelRouter
router = record {
  routes = main ∷ spare ∷ [];
  by_name = ("qwen3.6-plus", spare) ∷ ("qwen-flash", main) ∷ [];
  cost_table = default_cost_table;
}

made : model_router given [] ≡ ok router
unfolding model_router sorted_by insert_by index_names update_costs put
made = refl

-- The provider of the first route fails.
abbrev hello : LlmResponse
hello = record { content = "hello"; prompt_tokens = some 10; completion_tokens = some 2 }

abbrev asked : ModelRoute → State ℕ → Result LlmResponse × State ℕ
asked r s = elim (r.ref == 0) [ true ↦ (raised "down", s) | false ↦ (ok hello, s) ]

abbrev fresh : State ℕ
fresh = record { rr = 1; buckets = λ i. none; metrics = []; world = 0 }

abbrev clock : ℕ → ℕ
clock w = w

chat_spare : (chat clock asked router fallback ("hi" ∷ []) none fresh).0 ≡ ok hello
unfolding chat select hinted select_by try_routes try_route pass_bucket after_ask acquire refilled
    token_bucket record_cost used set_bucket
chat_spare = refl

chat-fallback_example :
    let t = (chat clock asked router fallback ("hi" ∷ []) none fresh).1 in
    ServedByPriority clock asked router ("hi" ∷ []) given fresh hello t
chat-fallback_example =
    chat-fallback clock asked router ("hi" ∷ []) given [] fresh
      (chat clock asked router fallback ("hi" ∷ []) none fresh).1 hello made
      (ap
        (λ (r : Result LlmResponse).
          (r, (chat clock asked router fallback ("hi" ∷ []) none fresh).1))
        chat_spare)
