-- ===== src/Router.antt =====
-- agent/provider_router.py: the token bucket, the routes, and the state of `ModelRouter`.
pub mod Dispatch
pub mod Limits
use minicode_agent_runtime.Prelude.{
  ℕ, String, Bool, true, false, ◌-◌, ◌*◌, ◌+◌, min, leb, if◌then◌else◌, List, Option,
}
use minicode_agent_runtime.Prelude.Dict.{Dict}

-- Instants are milliseconds of the monotonic clock, a rate is in thousandths of a request per
-- minute, and a token is counted in the unit in which a bucket of rate r gains r in a millisecond.
abbrev pub one_rpm : ℕ
one_rpm = 1000

abbrev pub minute : ℕ
minute = 60000

abbrev pub token : ℕ
token = 60000000

pub record TokenBucket : Type 0 where
  pub rate : ℕ
  pub tokens : ℕ
  pub updated : ℕ

-- `TokenBucket(rate_per_min)`: a new bucket is full.
unfoldable pub token_bucket : ℕ → ℕ → TokenBucket
token_bucket rate now = record { rate = rate; tokens = rate * minute; updated = now }

-- `self._tokens` after the refill of `acquire`
unfoldable pub refilled : ℕ → TokenBucket → ℕ
refilled now b = min (b.rate * minute) (b.tokens + (now - b.updated) * b.rate)

-- `acquire(n)`, which the bucket's lock makes one step
unfoldable pub acquire : ℕ → ℕ → TokenBucket → Bool × TokenBucket
acquire now n b =
    let tokens = refilled now b in
    if leb (n * token) tokens
    then (true, record b { tokens = tokens - n * token; updated = now })
    else (false, record b { tokens = tokens; updated = now })

-- `ref` is the identity of the route object, under which its `_bucket` is kept. Of the priorities
-- only the order is used, so they are natural numbers.
pub record ModelRoute : Type 0 where
  pub ref : ℕ
  pub name : String
  pub priority : ℕ
  pub max_rpm : ℕ

pub record LlmResponse : Type 0 where
  pub content : String
  pub prompt_tokens : Option ℕ
  pub completion_tokens : Option ℕ

pub data Strategy : Type 0 where
  explicit cost round_robin fallback : Strategy

pub data Status : Type 0 where
  rate_limited error_status ok_status : Status

-- What the router reports: `observe_llm`, `observe_llm_tokens` and `observe_llm_cost`.
pub data Metric : Type 0 where
  llm : String → Strategy → Status → Metric
  prompt_used : String → ℕ → Metric
  completion_used : String → ℕ → Metric
  costs : String → ℕ → Metric

-- What `__init__` fixes. A cost table gives a price per 1K tokens for "prompt" and "completion".
pub record ModelRouter : Type 0 where
  pub routes : List ModelRoute
  pub by_name : Dict ModelRoute
  pub cost_table : Dict (Dict ℕ)

-- What the calls of `chat` change: the turn of the round robin, the buckets of the routes, the
-- metrics, and the world of the providers.
pub record State (W : Type 0) : Type 0 where
  pub rr : ℕ
  pub buckets : ℕ → Option TokenBucket
  pub metrics : List Metric
  pub world : W
