-- ===== src/Scheduler.antt =====
-- agent/scheduler.py: jobs, the latency tracker, and the instants at which a job fires.
--
-- An instant is a number of microseconds, in UTC; a `timedelta` is a number of microseconds.
-- `statistics.quantiles(n=10)[8]`, rounded to microseconds, is the parameter `p90`, and
-- `next_cron_fire` the parameter `cron` (none where it raises). Intervals are not negative.
pub mod Service
pub mod Recovery
pub mod Advance
use minicode_agent_runtime.Prelude.{
  ℕ, zero, suc, ◌+◌, ◌-◌, ◌*◌, String, Bool, true, false, Option, none, some, List, [], ◌∷◌, ◌++◌,
  truthy, str_eq, ltb, leb, ◌==◌, length, if◌then◌else◌, drop,
}

pub record ScheduledJob : Type 0 where
  pub trigger : String
  pub tier : String
  pub fire_at : ℕ
  pub channel : String
  pub chat_id : String
  pub interval_seconds : Option ℕ
  pub cron_expr : Option String
  pub message : Option String
  pub prompt : Option String
  pub name : Option String
  pub timezone : String
  pub created_at : ℕ
  pub run_count : ℕ
  pub enabled : Bool
  pub id : String

-- `LatencyTracker`: the samples of a deque of `window` places, the oldest first.
pub record LatencyTracker : Type 0 where
  pub samples : List ℕ
  pub default : ℕ
  pub window : ℕ

-- `record`: a full deque drops its oldest sample.
unfoldable pub record_sample : LatencyTracker → ℕ → LatencyTracker
record_sample t elapsed =
    let grown = t.samples ++ elapsed ∷ [] in
    record t { samples = drop (length grown - t.window) grown }

unfoldable pub lead : (List ℕ → ℕ) → LatencyTracker → ℕ
lead p90 t = if ltb (length t.samples) 3 then t.default else p90 t.samples

-- An instant before the first one there is counts as the first.
unfoldable pub compute_actual_trigger : (List ℕ → ℕ) → ℕ → String → LatencyTracker → ℕ
unfolding lead
compute_actual_trigger p90 fire_at tier tracker =
    if str_eq tier "instant" then fire_at else fire_at - lead p90 tracker

abbrev pub is_every : ScheduledJob → Bool
is_every job = str_eq job.trigger "every"

abbrev pub second : ℕ
second = 1000000

-- `timedelta(seconds=job.interval_seconds or 3600)`
unfoldable pub interval_of : ScheduledJob → ℕ
interval_of job = elim job.interval_seconds [
  | none ↦ 3600 * second
  | some n ↦ (if n == 0 then 3600 else n) * second
]

-- `while next_fire <= after: next_fire += interval`, for at most `fuel` rounds.
unfoldable pub advance_past : ℕ → ℕ → ℕ → ℕ → ℕ
advance_past zero next_fire interval after = next_fire
advance_past (suc fuel) next_fire interval after =
    let later = advance_past fuel (next_fire + interval) interval after in
    if leb next_fire after then later else next_fire

-- `if job.cron_expr`
unfoldable pub cron_of : ScheduledJob → Option String
cron_of job = elim job.cron_expr [
  | none ↦ none
  | some expr ↦ if truthy expr then some expr else none
]

advance_by : (String → String → ℕ → Option ℕ) → ScheduledJob → ℕ → Option String → Option ℕ
advance_by cron job after (some expr) = cron expr job.timezone after
advance_by cron job after none =
    some (advance_past (suc after) (job.fire_at + interval_of job) (interval_of job) after)

-- `next_cron_fire`: APScheduler's trigger if the library is there, else `_next_cron_fire_fallback`;
-- none where they raise ValueError or give no instant.
unfoldable pub next_cron_fire :
    Option (String → String → ℕ → Option ℕ)
    → (fallback : String → String → ℕ → Option ℕ) → String
    → String
    → ℕ
    → Option ℕ
next_cron_fire none fallback expr tz after = fallback expr tz after
next_cron_fire (some trigger) fallback expr tz after = trigger expr tz after

-- `_advance_every`; none where the cron library raises.
unfoldable pub advance_every : (String → String → ℕ → Option ℕ) → ScheduledJob → ℕ → Option ℕ
unfolding advance_by
advance_every cron job after = advance_by cron job after (cron_of job)
