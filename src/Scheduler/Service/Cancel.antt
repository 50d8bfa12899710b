-- ===== src/Scheduler/Service/Cancel.antt =====
-- What is left of a job in agent/scheduler.py's `SchedulerService` when its run ends.
use minicode_agent_runtime.Prelude.{
  ℕ, ◌+◌, max, ◌<◌, String, Bool, true, false, ◌≡◌, refl, Option, none, some, eq_refl, arith,
  if◌then◌else◌, Bool-cases, inl, inr, ◌∙◌, ◌∙◌,
}
use minicode_agent_runtime.Prelude.Dict.{get, has, get-put, get-pop, values}
use minicode_agent_runtime.Scheduler.{ScheduledJob, is_every, advance_every, cron_of}
use minicode_agent_runtime.Scheduler.Advance.{advance_every-NextFiring}
use minicode_agent_runtime.Scheduler.Service.{Service, cancel_job, finish, counted, reschedule}

counted_fields :
    (done : Bool) (job : ScheduledJob)
    → ((counted done job).id ≡ job.id)
      × (is_every (counted done job) ≡ is_every job)
      × ((counted done job).fire_at ≡ job.fire_at)
      × (cron_of (counted done job) ≡ cron_of job)
unfolding cron_of
counted_fields true job = (refl, refl, refl, refl)
counted_fields false job = (refl, refl, refl, refl)

module _ (cron : String → String → ℕ → Option ℕ) where
  -- What the end of a run leaves under the job's id, whatever was there before.
  finish-get :
      (done : Bool) (now : ℕ) (job : ScheduledJob) (s : Service) (next : ℕ)
      → advance_every cron (counted done job) (max now job.fire_at + 1) ≡ some next
      → get (finish cron done now job s).jobs job.id
        ≡ (if is_every job then some (record (counted done job) { fire_at = next }) else none)
  unfolding finish reschedule
  finish-get true now job s next h = elim (Bool-cases (is_every job)) [
    | inl e ↦ rw (e, h, get-put, eq_refl)
    | inr e ↦ rw (e, get-pop, eq_refl)
  ]
  finish-get false now job s next h = elim (Bool-cases (is_every job)) [
    | inl e ↦ rw (e, h, get-put, eq_refl)
    | inr e ↦ rw (e, get-pop, eq_refl)
  ]

  -- A recurring job that is cancelled while its run is in flight is gone after the cancellation,
  -- and stands among the jobs again, with its next firing, when the run ends.
  pub cancel_job-finish :
      (done : Bool) (now : ℕ) (job : ScheduledJob) (s : Service) (next : ℕ)
      → is_every job ≡ true
      → has s.jobs job.id ≡ true
      → advance_every cron (counted done job) (max now job.fire_at + 1) ≡ some next
      → let cancelled = cancel_job job.id s in
        let ended = finish cron done now job cancelled.0 in
        (cancelled.1 ≡ true)
        × (get cancelled.0.jobs job.id ≡ none)
        × (get ended.jobs job.id ≡ some (record (counted done job) { fire_at = next }))
  unfolding cancel_job
  cancel_job-finish done now job s next every present h = (
    rw present,
    rw (present, get-pop, eq_refl),
    finish-get done now job (cancel_job job.id s).0 next h ∙ rw every,
  )

  finish-stored :
      (done : Bool) (now : ℕ) (job : ScheduledJob) (s : Service) (next : ℕ)
      → is_every job ≡ true
      → advance_every cron (counted done job) (max now job.fire_at + 1) ≡ some next
      → (finish cron done now job s).stored ≡ values (finish cron done now job s).jobs
  unfolding finish reschedule
  finish-stored true now job s next every h = rw (every, h)
  finish-stored false now job s next every h = rw (every, h)

  -- At the end of a run, failed or not, a recurring job with an interval stands among the jobs
  -- with a firing later than the present and than the firing it served, its run counted if it did
  -- not fail, and the stored jobs are those of the service.
  pub finish-every :
      (done : Bool) (now : ℕ) (job : ScheduledJob) (s : Service)
      → is_every job ≡ true
      → cron_of job ≡ none
      → let ended = finish cron done now job s in
        (next : ℕ) × (get ended.jobs job.id ≡ some (record (counted done job) { fire_at = next }))
        × (max now job.fire_at < next)
        × (ended.stored ≡ values ended.jobs)
  finish-every done now job s every no_cron =
      let (_, _, _, c) = counted_fields done job in
      let (next, h, f) =
        advance_every-NextFiring cron (counted done job) (max now job.fire_at + 1) (c ∙ no_cron) in
      (
        next,
        finish-get done now job s next h ∙ rw every,
        omega (arith, f.0),
        finish-stored done now job s next every h,
      )
