-- ===== src/Scheduler/Service/InFlight.antt =====
-- The running tasks of agent/scheduler.py's `SchedulerService`: one for each job at most.
use minicode_agent_runtime.Prelude.{
  ℕ, String, Bool, true, false, ◌≡◌, refl, ap, List, [], ◌∷◌, ◌++◌, map, contains, str_eq, arith,
  Bool-cases, inl, inr, Option, ◌∙◌, sym, Distinct, snoc-Distinct,
}
use minicode_agent_runtime.Scheduler.{ScheduledJob}
use minicode_agent_runtime.Scheduler.Service.{
  Service, add_job, cancel_job, cancel_job_by_name, discard, end_task, is_due, tick_job, tick_jobs,
  tick, finish, Step, add, cancel, cancel_name, ticked, sampled, finished, Reach, here, later,
  values, after_cancel, pop_all, named,
}

-- The set of jobs in flight is the set of the running tasks' jobs, and no job is in it twice.
pub record RunsOnce (s : Service) : Type 0 where
  pub flight : s.in_flight ≡ map (λ (j : ScheduledJob). j.id) s.tasks
  pub once : Distinct s.in_flight

contains-discard :
    (x y : String) (xs : List String) → contains xs y ≡ false → contains (discard x xs) y ≡ false
unfolding discard
contains-discard x y [] h = refl
contains-discard x y (z ∷ xs) h = ground (arith, contains-discard x y xs)

discard-Distinct : (x : String) (xs : List String) → Distinct xs → Distinct (discard x xs)
unfolding discard
discard-Distinct x [] h = tt
discard-Distinct x (y ∷ ys) h = elim (Bool-cases (str_eq y x)) [
  | inl e ↦ rw e (discard-Distinct x ys h.1)
  | inr e ↦ rw e (contains-discard x y ys h.0, discard-Distinct x ys h.1)
]

map-end_task :
    (x : String) (tasks : List ScheduledJob)
    → map (λ (j : ScheduledJob). j.id) (end_task x tasks)
      ≡ discard x (map (λ (j : ScheduledJob). j.id) tasks)
unfolding discard end_task
map-end_task x [] = refl
map-end_task x (j ∷ js) = ground (arith, map-end_task x js)

map-snoc :
    (tasks : List ScheduledJob) (job : ScheduledJob)
    → map (λ (j : ScheduledJob). j.id) (tasks ++ job ∷ [])
      ≡ map (λ (j : ScheduledJob). j.id) tasks ++ job.id ∷ []
map-snoc [] job = refl
map-snoc (j ∷ js) job = ap (◌∷◌ j.id) (map-snoc js job)

module _ (p90 : List ℕ → ℕ) where
  not-contains_of_due :
      (now : ℕ) (job : ScheduledJob) (s : Service)
      → is_due p90 now s job ≡ true
      → contains s.in_flight job.id ≡ false
  unfolding is_due
  not-contains_of_due now job s h = ground arith

  tick_job-RunsOnce :
      (now : ℕ) (job : ScheduledJob) (s : Service) → RunsOnce s → RunsOnce (tick_job p90 now job s)
  unfolding tick_job
  tick_job-RunsOnce now job s h = elim (Bool-cases (is_due p90 now s job)) [
    | inl e ↦ rw e (record {
      flight = ap (λ (l : List String). l ++ job.id ∷ []) h.flight ∙ sym (map-snoc s.tasks job);
      once = snoc-Distinct job.id s.in_flight (not-contains_of_due now job s e) h.once;
    })
    | inr e ↦ rw e h
  ]

  tick_jobs-RunsOnce :
      (now : ℕ) (jobs : List ScheduledJob) (s : Service)
      → RunsOnce s
      → RunsOnce (tick_jobs p90 now jobs s)
  unfolding tick_jobs
  tick_jobs-RunsOnce now [] s h = h
  tick_jobs-RunsOnce now (job ∷ jobs) s h =
      tick_jobs-RunsOnce now jobs (tick_job p90 now job s) (tick_job-RunsOnce now job s h)

module _ (cron : String → String → ℕ → Option ℕ) where
  finish_fields :
      (done : Bool) (now : ℕ) (job : ScheduledJob) (s : Service)
      → ((finish cron done now job s).in_flight ≡ discard job.id s.in_flight)
        × ((finish cron done now job s).tasks ≡ end_task job.id s.tasks)
  unfolding finish
  finish_fields true now job s = ground arith
  finish_fields false now job s = ground arith

  finish-RunsOnce :
      (done : Bool) (now : ℕ) (job : ScheduledJob) (s : Service)
      → RunsOnce s
      → RunsOnce (finish cron done now job s)
  finish-RunsOnce done now job s h =
      let (f, t) = finish_fields done now job s in
      record {
        flight = rw (f, t, map-end_task, h.flight);
        once = rw f (discard-Distinct job.id s.in_flight h.once);
      }

cancel_by_name_fields :
    (name : String) (s : Service)
    → ((cancel_job_by_name name s).0.in_flight ≡ s.in_flight)
      × ((cancel_job_by_name name s).0.tasks ≡ s.tasks)
unfolding cancel_job_by_name
cancel_by_name_fields name s = by_ids (named name s.jobs)
  where
    by_ids :
        (ids : List String)
        → ((after_cancel ids (record s { jobs = pop_all (named name s.jobs) s.jobs })).in_flight
            ≡ s.in_flight)
          × ((after_cancel ids (record s { jobs = pop_all (named name s.jobs) s.jobs })).tasks
              ≡ s.tasks)
    by_ids [] = (refl, refl)
    by_ids (_ ∷ _) = (refl, refl)

module _ (p90 : List ℕ → ℕ) (cron : String → String → ℕ → Option ℕ) where
  -- Every step keeps it, whatever the order of ticks, ends of tasks and calls of the tools.
  pub Step-RunsOnce : {s t : Service} → Step p90 cron s t → RunsOnce s → RunsOnce t
  unfolding add_job cancel_job
  Step-RunsOnce (add job s) h = record { flight = h.flight; once = h.once }
  Step-RunsOnce (cancel id s) h = ground arith
  Step-RunsOnce (cancel_name name s) h =
      let (f, t) = cancel_by_name_fields name s in
      record { flight = rw (f, t) h.flight; once = rw f h.once }
  Step-RunsOnce (ticked now s) h = unfold tick in tick_jobs-RunsOnce p90 now (values s.jobs) s h
  Step-RunsOnce (sampled elapsed s) h = record { flight = h.flight; once = h.once }
  Step-RunsOnce (finished done now job s m) h = finish-RunsOnce cron done now job s h

  -- From a service in which the jobs in flight are the running tasks and none is there twice,
  -- every sequence of ticks, ends of runs, additions, cancellations and samples leads to such a
  -- service: no job has two runs at once.
  pub Reach-RunsOnce : {s t : Service} → RunsOnce s → Reach p90 cron s t → RunsOnce t
  Reach-RunsOnce h here = h
  Reach-RunsOnce h (later r step) = Step-RunsOnce step (Reach-RunsOnce h r)
