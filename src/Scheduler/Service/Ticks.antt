-- ===== src/Scheduler/Service/Ticks.antt =====
-- Which jobs one `_tick` of agent/scheduler.py starts.
use mathlib.Core.List.{append-nil, append_assoc}
use minicode_agent_runtime.Prelude.{
  ℕ, String, Bool, true, false, ◌≡◌, refl, ap, sym, ◌∙◌, List, [], ◌∷◌, ◌++◌, map, contains, str_eq,
  Distinct, keep, All, contains-snoc_ne, str_eq_comm, eq_iff, arith, Bool-cases, inl, inr, Option,
  some, if◌then◌else◌, leb,
}
use minicode_agent_runtime.Prelude.Dict.{
  Dict, put, pop, keys, values, put-Distinct, pop-Distinct, All-put, All-pop, has,
}
use minicode_agent_runtime.Scheduler.{ScheduledJob, is_every, compute_actual_trigger}
use minicode_agent_runtime.Scheduler.Service.{
  Service, add_job, cancel_job, cancel_job_by_name, named, pop_all, put_if_present, is_due,
  tick_job, tick_jobs, tick, finish, reschedule, counted, Step, add, cancel, cancel_name, ticked,
  sampled, finished, Reach, here, later, after_cancel,
}
use mathlib.Core.Option.{none}

-- Each job stands under its own id, and no id stands twice.
pub record IsKeyed (d : Dict ScheduledJob) : Type 0 where
  pub own : All (λ e. e.0 ≡ e.1.id) d
  pub distinct : Distinct (keys d)

map-id_values :
    (d : Dict ScheduledJob)
    → All (λ e. e.0 ≡ e.1.id) d
    → map (λ (j : ScheduledJob). j.id) (values d) ≡ keys d
map-id_values [] h = refl
map-id_values ((k, j) ∷ d) h = cc (h.0, map-id_values d h.1)

put-IsKeyed : (d : Dict ScheduledJob) (job : ScheduledJob) → IsKeyed d → IsKeyed (put d job.id job)
put-IsKeyed d job h = record {
  own = All-put (λ e. e.0 ≡ e.1.id) d job.id job (λ j e. (eq_iff j job.id).0 e) h.own;
  distinct = put-Distinct d job.id job h.distinct;
}

pop-IsKeyed : (d : Dict ScheduledJob) (id : String) → IsKeyed d → IsKeyed (pop d id)
pop-IsKeyed d id h = record {
  own = All-pop (λ e. e.0 ≡ e.1.id) d id h.own;
  distinct = pop-Distinct d id h.distinct;
}

pop_all-IsKeyed : (ids : List String) (d : Dict ScheduledJob) → IsKeyed d → IsKeyed (pop_all ids d)
unfolding pop_all
pop_all-IsKeyed [] d h = h
pop_all-IsKeyed (id ∷ ids) d h = pop_all-IsKeyed ids (pop d id) (pop-IsKeyed d id h)

put_if_present-IsKeyed :
    (d : Dict ScheduledJob) (job : ScheduledJob) → IsKeyed d → IsKeyed (put_if_present d job)
unfolding put_if_present
put_if_present-IsKeyed d job h = elim (Bool-cases (has d job.id)) [
  | inl e ↦ rw e (put-IsKeyed d job h)
  | inr e ↦ rw e h
]

after_cancel-IsKeyed :
    (ids : List String) (d : Dict ScheduledJob) (s : Service)
    → IsKeyed d
    → IsKeyed (after_cancel ids (record s { jobs = d })).jobs
unfolding after_cancel
after_cancel-IsKeyed [] d s h = h
after_cancel-IsKeyed (id ∷ ids) d s h = h

cancel_by_name-IsKeyed :
    (name : String) (s : Service) → IsKeyed s.jobs → IsKeyed (cancel_job_by_name name s).0.jobs
unfolding cancel_job_by_name
cancel_by_name-IsKeyed name s h =
    after_cancel-IsKeyed (named name s.jobs) _ s (pop_all-IsKeyed (named name s.jobs) s.jobs h)

module _ (p90 : List ℕ → ℕ) where
  -- The service after it has started `job`.
  abbrev started : ScheduledJob → Service → Service
  started job s = record s { in_flight = s.in_flight ++ job.id ∷ []; tasks = s.tasks ++ job ∷ [] }

  is_due-started :
      (now : ℕ) (job other : ScheduledJob) (s : Service)
      → str_eq job.id other.id ≡ false
      → is_due p90 now (started job s) other ≡ is_due p90 now s other
  unfolding is_due
  is_due-started now job other s e = rw (contains-snoc_ne job.id other.id s.in_flight e)

  keep-started :
      (now : ℕ) (job : ScheduledJob) (s : Service) (jobs : List ScheduledJob)
      → contains (map (λ (j : ScheduledJob). j.id) jobs) job.id ≡ false
      → keep (is_due p90 now (started job s)) jobs ≡ keep (is_due p90 now s) jobs
  keep-started now job s [] h = refl
  keep-started now job s (j ∷ jobs) h = rw (
    is_due-started now job j s (str_eq_comm j.id job.id (ground arith)),
    keep-started now job s jobs (ground arith),
  )

  tick_job-due :
      (now : ℕ) (job : ScheduledJob) (s : Service)
      → is_due p90 now s job ≡ true
      → tick_job p90 now job s ≡ started job s
  unfolding tick_job
  tick_job-due now job s e = rw e

  tick_job-idle :
      (now : ℕ) (job : ScheduledJob) (s : Service)
      → is_due p90 now s job ≡ false
      → tick_job p90 now job s ≡ s
  unfolding tick_job
  tick_job-idle now job s e = rw e

  tick_jobs-tasks :
      (now : ℕ) (jobs : List ScheduledJob) (s : Service)
      → Distinct (map (λ (j : ScheduledJob). j.id) jobs)
      → (tick_jobs p90 now jobs s).tasks ≡ s.tasks ++ keep (is_due p90 now s) jobs
  unfolding tick_jobs
  tick_jobs-tasks now [] s h = sym (append-nil s.tasks)
  tick_jobs-tasks now (job ∷ jobs) s h = elim (Bool-cases (is_due p90 now s job)) [
    | inl e ↦
        ap (λ t. (tick_jobs p90 now jobs t).tasks) (tick_job-due now job s e)
        ∙ tick_jobs-tasks now jobs (started job s) h.1
        ∙ rw (e, keep-started now job s jobs h.0)
            (append_assoc s.tasks (job ∷ []) (keep (is_due p90 now s) jobs))
    | inr e ↦
        ap (λ t. (tick_jobs p90 now jobs t).tasks) (tick_job-idle now job s e)
        ∙ rw e (tick_jobs-tasks now jobs s h.1)
  ]

  -- A job that is enabled, has no run in flight, and whose trigger is not after `now`.
  abbrev pub starts : ℕ → Service → ScheduledJob → Bool
  starts now s job =
      if job.enabled
      then (if contains s.in_flight job.id
          then false
          else leb (compute_actual_trigger p90 job.fire_at job.tier s.tracker) now)
      else false

  is_due-starts :
      (now : ℕ) (s : Service) (job : ScheduledJob) → is_due p90 now s job ≡ starts now s job
  unfolding is_due
  is_due-starts now s job = ground arith

  keep-starts :
      (now : ℕ) (s : Service) (jobs : List ScheduledJob)
      → keep (is_due p90 now s) jobs ≡ keep (starts now s) jobs
  keep-starts now s [] = refl
  keep-starts now s (job ∷ jobs) = rw (is_due-starts now s job, keep-starts now s jobs)

  -- On jobs that stand under their own distinct ids, a tick starts exactly the enabled jobs that
  -- are not in flight and whose trigger has come, in the order of the jobs, each once.
  pub tick-tasks :
      (now : ℕ) (s : Service)
      → IsKeyed s.jobs
      → (tick p90 now s).tasks ≡ s.tasks ++ keep (starts now s) (values s.jobs)
  unfolding tick
  tick-tasks now s h =
      tick_jobs-tasks now (values s.jobs) s (rw (map-id_values s.jobs h.own) h.distinct)
      ∙ ap (◌++◌ s.tasks) (keep-starts now s (values s.jobs))

  tick_jobs-jobs :
      (now : ℕ) (jobs : List ScheduledJob) (s : Service) → (tick_jobs p90 now jobs s).jobs ≡ s.jobs
  unfolding tick_jobs tick_job
  tick_jobs-jobs now [] s = refl
  tick_jobs-jobs now (job ∷ jobs) s =
      tick_jobs-jobs now jobs (tick_job p90 now job s) ∙ ground arith

module _ (cron : String → String → ℕ → Option ℕ) where
  reschedule-IsKeyed :
      (job : ScheduledJob) (next : Option ℕ) (s : Service)
      → IsKeyed s.jobs
      → IsKeyed (reschedule cron job next s).jobs
  unfolding reschedule
  reschedule-IsKeyed job none s h = put_if_present-IsKeyed s.jobs job h
  reschedule-IsKeyed job (some next) s h = put-IsKeyed s.jobs (record job { fire_at = next }) h

  finish-IsKeyed :
      (done : Bool) (now : ℕ) (job : ScheduledJob) (s : Service)
      → IsKeyed s.jobs
      → IsKeyed (finish cron done now job s).jobs
  unfolding finish
  finish-IsKeyed done now job s h = elim (Bool-cases (is_every (counted done job))) [
    | inl e ↦ rw e (reschedule-IsKeyed (counted done job) _ _ h)
    | inr e ↦ rw e (pop-IsKeyed s.jobs (counted done job).id h)
  ]

module _ (p90 : List ℕ → ℕ) (cron : String → String → ℕ → Option ℕ) where
  pub Step-IsKeyed : {s t : Service} → Step p90 cron s t → IsKeyed s.jobs → IsKeyed t.jobs
  unfolding add_job
  Step-IsKeyed (add job s) h = put-IsKeyed s.jobs job h
  Step-IsKeyed (cancel id s) h = elim (Bool-cases (has s.jobs id)) [
    | inl e ↦ unfold cancel_job in rw e (pop-IsKeyed s.jobs id h)
    | inr e ↦ unfold cancel_job in rw e h
  ]
  Step-IsKeyed (cancel_name name s) h = cancel_by_name-IsKeyed name s h
  Step-IsKeyed (ticked now s) h = unfold tick in rw (tick_jobs-jobs p90 now (values s.jobs) s) h
  Step-IsKeyed (sampled elapsed s) h = h
  Step-IsKeyed (finished done now job s m) h = finish-IsKeyed cron done now job s h

  pub Reach-IsKeyed : {s t : Service} → IsKeyed s.jobs → Reach p90 cron s t → IsKeyed t.jobs
  Reach-IsKeyed h here = h
  Reach-IsKeyed h (later r step) = Step-IsKeyed step (Reach-IsKeyed h r)
