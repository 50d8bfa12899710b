-- ===== src/Router/Dispatch.antt =====
-- agent/provider_router.py: `ModelRouter.__init__`, `_select`, `_record_cost` and `chat`.
use Prim.Native.String.{◌++◌ as str_append, count}
pub mod Fallback
pub mod Turns
use minicode_agent_runtime.ToolHooks.{Result, ok, raised}
use minicode_agent_runtime.Prelude.{
  ℕ, String, Bool, true, false, ◌-◌, ◌*◌, ◌+◌, ◌/◌, ◌%◌, max, leb, ltb, if◌then◌else◌, List, [],
  ◌∷◌, ◌++◌, Option, none, some, length, take, drop, truthy, ◌==◌,
}
use minicode_agent_runtime.Prelude.Dict.{Dict, get, put, keys}
use minicode_agent_runtime.Router.{
  TokenBucket, acquire, token_bucket, ModelRoute, LlmResponse, Strategy, explicit, cost,
  round_robin, fallback, Status, rate_limited, error_status, ok_status, Metric, llm, prompt_used,
  completion_used, costs, ModelRouter, State,
}

-- `sorted(..., key=key)`, which is stable
unfoldable pub insert_by : {A : Type 0} → (A → ℕ) → A → List A → List A
insert_by key x [] = x ∷ []
insert_by key x (y ∷ ys) =
    let rest = insert_by key x ys in if leb (key x) (key y) then x ∷ y ∷ ys else y ∷ rest

unfoldable pub sorted_by : {A : Type 0} → (A → ℕ) → List A → List A
sorted_by key [] = []
sorted_by key (x ∷ xs) = insert_by key x (sorted_by key xs)

-- `{r.name: r for r in routes}`, on top of `d`
unfoldable pub index_names : List ModelRoute → Dict ModelRoute → Dict ModelRoute
index_names [] d = d
index_names (r ∷ rs) d = index_names rs (put d r.name r)

-- `d.update(e)`
unfoldable pub update_costs : Dict (Dict ℕ) → Dict (Dict ℕ) → Dict (Dict ℕ)
update_costs d [] = d
update_costs d ((k, v) ∷ e) = update_costs (put d k v) e

-- `DEFAULT_COST_TABLE`, in millionths of a dollar
abbrev pub default_cost_table : Dict (Dict ℕ)
default_cost_table =
    ("qwen3.6-plus", ("prompt", 2000) ∷ ("completion", 6000) ∷ [])
    ∷ ("qwen-flash", ("prompt", 400) ∷ ("completion", 800) ∷ [])
    ∷ []

abbrev pub priority_of : ModelRoute → ℕ
priority_of r = r.priority

-- `ModelRouter(routes, cost_table)`
unfoldable pub model_router : List ModelRoute → Dict (Dict ℕ) → Result ModelRouter
model_router [] given = raised "at least one route required"
model_router (r ∷ rs) given = ok (record {
  routes = sorted_by priority_of (r ∷ rs);
  by_name = index_names (r ∷ rs) [];
  cost_table = update_costs default_cost_table given;
})

unfoldable pub route_names : ModelRouter → List String
route_names m = keys m.by_name

-- `self._cost.get(name, {}).get(kind, 0.0)`
unfoldable pub price : ModelRouter → String → String → ℕ
price m name kind = elim (get m.cost_table name) [
  | none ↦ 0
  | some table ↦ elim (get table kind) [ none ↦ 0 | some p ↦ p ]
]

unfoldable pub cost_per_1k : ModelRouter → ModelRoute → ℕ
cost_per_1k m r = price m r.name "prompt" + price m r.name "completion"

-- `_est_tokens`
unfoldable pub est_tokens : String → ℕ
est_tokens text = if truthy text then max 1 (count text / 4) else 0

-- `model_hint and model_hint in self._by_name`
unfoldable pub hinted : ModelRouter → Option String → Option ModelRoute
hinted m none = none
hinted m (some hint) = if truthy hint then get m.by_name hint else none

-- `" ".join(...)`
unfoldable pub join_words : List String → String
join_words [] = ""
join_words (t ∷ []) = t
join_words (t ∷ u ∷ ts) = str_append t (str_append " " (join_words (u ∷ ts)))

unfoldable pub used : Option ℕ → String → ℕ
used none text = est_tokens text
used (some n) text = n

module _ {W : Type 0} where
  -- `_select` without a hint that names a route
  unfoldable pub select_by : ModelRouter → Strategy → State W → List ModelRoute × State W
  select_by m explicit s = (m.routes, s)
  select_by m cost s = (sorted_by (cost_per_1k m) m.routes, s)
  select_by m round_robin s =
      (drop s.rr m.routes ++ take s.rr m.routes, record s { rr = (s.rr + 1) % length m.routes })
  select_by m fallback s = (m.routes, s)

  -- `_select`
  unfoldable pub select :
      ModelRouter → Strategy → Option String → State W → List ModelRoute × State W
  select m strategy hint s = elim (hinted m hint) [
    | some r ↦ (r ∷ [], s)
    | none ↦ select_by m strategy s
  ]

  abbrev pub emit : Metric → State W → State W
  emit x s = record s { metrics = s.metrics ++ x ∷ [] }

  abbrev pub emit_if : Bool → Metric → State W → State W
  emit_if b x s = if b then emit x s else s

  -- `_record_cost`; the cost is in billionths of a dollar.
  unfoldable pub record_cost :
      ModelRouter → ModelRoute → LlmResponse → List String → State W → State W
  record_cost m r resp contents s =
      let prompt = used resp.prompt_tokens (join_words contents) in
      let completion = used resp.completion_tokens resp.content in
      emit
        (costs r.name (prompt * price m r.name "prompt" + completion * price m r.name "completion"))
        (emit_if (ltb 0 completion) (completion_used r.name completion)
          (emit_if (ltb 0 prompt) (prompt_used r.name prompt) s))

-- What `chat` does at one candidate.
pub data Try (W : Type 0) : Type 0 where
  limited : State W → Try W
  broken : String → State W → Try W
  answered : LlmResponse → State W → Try W

unfoldable pub set_bucket : {W : Type 0} → ℕ → TokenBucket → State W → State W
set_bucket ref b s = record s { buckets = λ i. if i == ref then some b else s.buckets i }

-- `raise last_err`, or the error that there was no candidate left
unfoldable pub give_up : Option String → Result LlmResponse
give_up none = raised "all routes failed"
give_up (some e) = raised e

abbrev pub continue_try :
    {W : Type 0}
    → (Option String → State W → Result LlmResponse × State W)
    → Option String
    → Try W
    → Result LlmResponse × State W
continue_try k last (limited s) = k last s
continue_try k last (broken e s) = k (some e) s
continue_try k last (answered resp s) = (ok resp, s)

-- `clock` is the monotonic clock; `ask` is the chat of a route's provider, during which other
-- tasks may change the state too; `contents` are the contents of the messages.
module _ {W : Type 0} (clock : W → ℕ) (ask : ModelRoute → State W → Result LlmResponse × State W)
    (m : ModelRouter) (strategy : Strategy) (contents : List String) where
  -- `route.bucket()`, and `acquire(1)` of what it returns
  unfoldable pub pass_bucket : ModelRoute → Option TokenBucket → State W → Bool × State W
  pass_bucket r none s =
      let (passed, b) = acquire (clock s.world) 1 (token_bucket r.max_rpm (clock s.world)) in
      if ltb 0 r.max_rpm then (passed, set_bucket r.ref b s) else (true, s)
  pass_bucket r (some bucket) s =
      let (passed, b) = acquire (clock s.world) 1 bucket in (passed, set_bucket r.ref b s)

  unfoldable pub after_ask : ModelRoute → Result LlmResponse × State W → Try W
  after_ask r (raised e, s) = broken e (emit (llm r.name strategy error_status) s)
  after_ask r (ok resp, s) =
      answered resp (emit (llm r.name strategy ok_status) (record_cost m r resp contents s))

  unfoldable pub try_route : ModelRoute → State W → Try W
  unfolding pass_bucket after_ask
  try_route r s =
      let (passed, s') = pass_bucket r (s.buckets r.ref) s in
      if passed
      then after_ask r (ask r s')
      else limited (emit (llm r.name strategy rate_limited) s')

  unfoldable pub try_routes :
      List ModelRoute → Option String → State W → Result LlmResponse × State W
  try_routes [] last s = (give_up last, s)
  try_routes (r ∷ rs) last s = continue_try (try_routes rs) last (try_route r s)

  -- `chat`
  unfoldable pub chat : Option String → State W → Result LlmResponse × State W
  unfolding try_routes
  chat hint s = let (candidates, s') = select m strategy hint s in try_routes candidates none s'
