-- ===== src/Tests/Jobs.antt =====
-- Scheduled jobs: samples and examples for agent/scheduler.py.
use minicode_agent_runtime.Prelude.{
  ℕ, ◌+◌, ◌*◌, max, String, true, ◌≡◌, refl, Option, none, some, List, [], ◌∷◌, All, keep, arith,
}
use minicode_agent_runtime.Prelude.Dict.{Dict, get, put, has}
use minicode_agent_runtime.Scheduler.{
  ScheduledJob, second, advance_past, advance_every, cron_of, interval_of, compute_actual_trigger,
  next_cron_fire,
}
use minicode_agent_runtime.Scheduler.Advance.{NextFiring, advance_every-NextFiring}
use minicode_agent_runtime.Scheduler.Service.{
  Service, add_job, cancel_job, tick, tick_jobs, tick_job, finish, counted, add, ticked, Reach,
  here, later,
}
use minicode_agent_runtime.Scheduler.Service.InFlight.{RunsOnce, Reach-RunsOnce}
use minicode_agent_runtime.Scheduler.Service.Ticks.{IsKeyed, starts, tick-tasks}
use minicode_agent_runtime.Scheduler.Service.Cancel.{cancel_job-finish}
use minicode_agent_runtime.Scheduler.Recovery.{recover, recover_job, is_late, in_grace}
use minicode_agent_runtime.Scheduler.Recovery.Kept.{IsReady, CronIsNotBefore, recover-AllReady}

-- A cron library for which every expression fires a minute later.
abbrev each_minute : String → String → ℕ → Option ℕ
each_minute expr tz after = some (after + 60 * second)

abbrev no_quantile : List ℕ → ℕ
no_quantile samples = 0

-- Every two seconds, from the tenth on.
abbrev heartbeat : ScheduledJob
heartbeat = record {
  trigger = "every";
  tier = "instant";
  fire_at = 10 * second;
  channel = "cli";
  chat_id = "1";
  interval_seconds = some 2;
  cron_expr = none;
  message = some "tick";
  prompt = none;
  name = some "heartbeat";
  timezone = "UTC";
  created_at = 0;
  run_count = 0;
  enabled = true;
  id = "h";
}

abbrev reminder : ScheduledJob
reminder = record heartbeat { trigger = "at"; id = "r"; fire_at = 3 * second }

abbrev both : Dict ScheduledJob
both = ("h", heartbeat) ∷ ("r", reminder) ∷ []

abbrev service : Service
service = record {
  jobs = both;
  in_flight = [];
  tasks = [];
  stored = [];
  tracker = record { samples = []; default = 25 * second; window = 20 };
}

no_cron : cron_of heartbeat ≡ none
unfolding cron_of
no_cron = refl

-- Fired late, at second 15, the job goes on at second 16.
heartbeat_next : advance_every each_minute heartbeat (15 * second) ≡ some (16 * second)
unfolding advance_every cron_of advance_past interval_of
heartbeat_next = refl

heartbeat_after_run :
    advance_every each_minute (counted true heartbeat) (max (11 * second) (10 * second) + 1)
    ≡ some (12 * second)
unfolding advance_every cron_of advance_past interval_of
heartbeat_after_run = refl

advance_every-NextFiring_example :
    (next : ℕ) × (advance_every each_minute heartbeat (15 * second) ≡ some next)
    × NextFiring heartbeat (15 * second) next
advance_every-NextFiring_example =
    advance_every-NextFiring each_minute heartbeat (15 * second) no_cron

service-RunsOnce : RunsOnce service
service-RunsOnce = record { flight = refl; once = tt }

abbrev run :
    Reach no_quantile each_minute service
      (tick no_quantile (12 * second) (add_job heartbeat service))
run = later (later here (add heartbeat service)) (ticked (12 * second) (add_job heartbeat service))

Reach-RunsOnce_example : RunsOnce (tick no_quantile (12 * second) (add_job heartbeat service))
Reach-RunsOnce_example = Reach-RunsOnce no_quantile each_minute service-RunsOnce run

both-IsKeyed : IsKeyed both
both-IsKeyed = record { own = (refl, (refl, tt)); distinct = (refl, (refl, tt)) }

-- At second 4 only the reminder is due.
tick_starts_reminder : (tick no_quantile (4 * second) service).tasks ≡ reminder ∷ []
unfolding tick tick_jobs tick_job compute_actual_trigger
tick_starts_reminder = refl

tick-tasks_example :
    (tick no_quantile (4 * second) service).tasks
    ≡ keep (starts no_quantile (4 * second) service) (heartbeat ∷ reminder ∷ [])
tick-tasks_example = tick-tasks no_quantile (4 * second) service both-IsKeyed

heartbeat_present : has both "h" ≡ true
unfolding get
heartbeat_present = refl

cancel_job-finish_example :
    let cancelled = cancel_job "h" service in
    let ended = finish each_minute true (11 * second) heartbeat cancelled.0 in
    (cancelled.1 ≡ true)
    × (get cancelled.0.jobs "h" ≡ none)
    × (get ended.jobs "h" ≡ some (record (counted true heartbeat) { fire_at = 12 * second }))
cancel_job-finish_example =
    cancel_job-finish each_minute true (11 * second) heartbeat service (12 * second) refl
      heartbeat_present heartbeat_after_run

-- APScheduler may give the instant itself.
abbrev at_once : String → String → ℕ → Option ℕ
at_once expr tz after = some after

at_once-CronIsNotBefore : CronIsNotBefore at_once
at_once-CronIsNotBefore expr tz after next h = ground arith

abbrev no_fallback : String → String → ℕ → Option ℕ
no_fallback expr tz after = none

abbrev each_second : ScheduledJob
each_second = record heartbeat { id = "c"; cron_expr = some "* * * * * *" }

abbrev recovered_jobs : Dict ScheduledJob
recovered_jobs =
    ("h", record heartbeat { fire_at = 12 * second })
    ∷ ("r", reminder)
    ∷ ("c", record each_second { fire_at = 11 * second })
    ∷ []

recovered :
    recover
      (next_cron_fire (some at_once) no_fallback)
      (11 * second)
      (heartbeat ∷ reminder ∷ each_second ∷ [])
      []
    ≡ some recovered_jobs
unfolding recover recover_job is_late in_grace advance_every cron_of advance_past interval_of put
    next_cron_fire
recovered = refl

recover-AllReady_example :
    All {A = String × ScheduledJob} (λ e. IsReady (11 * second) e.1) recovered_jobs
recover-AllReady_example =
    recover-AllReady at_once no_fallback at_once-CronIsNotBefore (11 * second)
      (heartbeat ∷ reminder ∷ each_second ∷ []) recovered_jobs recovered
