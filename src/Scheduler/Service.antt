-- ===== src/Scheduler/Service.antt =====
-- agent/scheduler.py: `SchedulerService`, its jobs, its running tasks, and what is on disk.
--
-- `tasks` are the tasks of `_execute_and_reschedule` that were created and have not ended, each
-- with the job object that it holds. That object is changed by its task alone, at the task's end,
-- so it is a value here; the entry of `jobs` for it is the same object.
pub mod InFlight
pub mod Ticks
pub mod Cancel
use minicode_agent_runtime.Prelude.{
  ℕ, ◌+◌, String, Bool, true, false, Option, none, some, List, [], ◌∷◌, ◌++◌, contains, str_eq, not,
  ◌||◌, ◌&&◌, leb, max, if◌then◌else◌,
}
use mathlib.Core.List.{Mem}
use minicode_agent_runtime.Prelude.Dict.{Dict, get, put, pop, has, values}
use minicode_agent_runtime.Scheduler.{
  ScheduledJob, LatencyTracker, compute_actual_trigger, is_every, advance_every, record_sample,
}

pub record Service : Type 0 where
  pub jobs : Dict ScheduledJob
  pub in_flight : List String
  pub tasks : List ScheduledJob
  pub stored : List ScheduledJob
  pub tracker : LatencyTracker

-- `self.store.save(self._jobs)`
abbrev pub save : Service → Service
save s = record s { stored = values s.jobs }

-- `add_job`
unfoldable pub add_job : ScheduledJob → Service → Service
add_job job s = save (record s { jobs = put s.jobs job.id job })

-- `cancel_job`
unfoldable pub cancel_job : String → Service → Service × Bool
cancel_job job_id s =
    if has s.jobs job_id then (save (record s { jobs = pop s.jobs job_id }), true) else (s, false)

-- `[jid for jid, j in self._jobs.items() if j.name == name]`
unfoldable pub named : String → Dict ScheduledJob → List String
named name [] = []
named name ((jid, j) ∷ d) =
    let rest = named name d in
    if elim j.name [ none ↦ false | some n ↦ str_eq n name ] then jid ∷ rest else rest

-- `for jid in cancelled: del self._jobs[jid]`
unfoldable pub pop_all : List String → Dict ScheduledJob → Dict ScheduledJob
pop_all [] d = d
pop_all (jid ∷ jids) d = pop_all jids (pop d jid)

-- `if cancelled: self.store.save(...)`
unfoldable pub after_cancel : List String → Service → Service
after_cancel [] s = s
after_cancel (_ ∷ _) s = save s

-- `cancel_job_by_name`
unfoldable pub cancel_job_by_name : String → Service → Service × List String
unfolding after_cancel
cancel_job_by_name name s =
    let cancelled = named name s.jobs in
    (after_cancel cancelled (record s { jobs = pop_all cancelled s.jobs }), cancelled)

-- `self._in_flight.discard(...)`, and the end of the task of that job.
unfoldable pub discard : String → List String → List String
discard x [] = []
discard x (y ∷ ys) = let rest = discard x ys in if str_eq y x then rest else y ∷ rest

unfoldable pub end_task : String → List ScheduledJob → List ScheduledJob
end_task x [] = []
end_task x (j ∷ js) = let rest = end_task x js in if str_eq j.id x then rest else j ∷ rest

-- What a change of the object `job` does to the dict that holds it.
unfoldable pub put_if_present : Dict ScheduledJob → ScheduledJob → Dict ScheduledJob
put_if_present d job = if has d job.id then put d job.id job else d

module _ (p90 : List ℕ → ℕ) where
  -- A job that a tick at `now` runs.
  pub is_due : ℕ → Service → ScheduledJob → Bool
  is_due now s job =
      not (not job.enabled || contains s.in_flight job.id)
      && leb (compute_actual_trigger p90 job.fire_at job.tier s.tracker) now

  -- The body of the loop of `_tick`.
  unfoldable pub tick_job : ℕ → ScheduledJob → Service → Service
  unfolding is_due
  tick_job now job s =
      if is_due now s job
      then record s { in_flight = s.in_flight ++ job.id ∷ []; tasks = s.tasks ++ job ∷ [] }
      else s

  unfoldable pub tick_jobs : ℕ → List ScheduledJob → Service → Service
  tick_jobs now [] s = s
  tick_jobs now (job ∷ jobs) s = tick_jobs now jobs (tick_job now job s)

  -- `_tick`
  unfoldable pub tick : ℕ → Service → Service
  tick now s = tick_jobs now (values s.jobs) s

-- `job.run_count += 1`, when `_execute` did not raise.
abbrev pub counted : Bool → ScheduledJob → ScheduledJob
counted true job = record job { run_count = job.run_count + 1 }
counted false job = job

module _ (cron : String → String → ℕ → Option ℕ) where
  reschedule : ScheduledJob → Option ℕ → Service → Service
  reschedule job none s = record s { jobs = put_if_present s.jobs job }
  reschedule job (some next) s =
      save (record s { jobs = put s.jobs job.id (record job { fire_at = next }) })

  -- The end of `_execute_and_reschedule`; `done` is false if `_execute` raised. Where the cron
  -- library raises, so does the task, before it saves.
  unfoldable pub finish : Bool → ℕ → ScheduledJob → Service → Service
  unfolding reschedule
  finish done now task_job s =
      let job = counted done task_job in
      let s' = record s {
        in_flight = discard job.id s.in_flight;
        tasks = end_task job.id s.tasks;
      } in
      if is_every job
      then reschedule job (advance_every cron job (max now job.fire_at + 1)) s'
      else save (record s' { jobs = pop s'.jobs job.id })

module _ (p90 : List ℕ → ℕ) (cron : String → String → ℕ → Option ℕ) where
  -- What the service does between two awaits.
  pub data Step : Service → Service → Type 0 where
    add : (job : ScheduledJob) (s : Service) → Step s (add_job job s)
    cancel : (id : String) (s : Service) → Step s (cancel_job id s).0
    cancel_name : (name : String) (s : Service) → Step s (cancel_job_by_name name s).0
    ticked : (now : ℕ) (s : Service) → Step s (tick p90 now s)
    sampled :
        (elapsed : ℕ) (s : Service)
        → Step s (record s { tracker = record_sample s.tracker elapsed })
    finished :
        (done : Bool) (now : ℕ) (job : ScheduledJob) (s : Service)
        → Mem job s.tasks
        → Step s (finish cron done now job s)

  pub data Reach (s : Service) : Service → Type 0 where
    here : Reach s s
    later : {t u : Service} → Reach s t → Step t u → Reach s u
