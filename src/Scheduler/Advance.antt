-- ===== src/Scheduler/Advance.antt =====
-- `_advance_every` of agent/scheduler.py: the next firing of a recurring job.
use minicode_agent_runtime.Prelude.{
  ℕ, zero, suc, ◌+◌, ◌*◌, ◌≤◌, ◌<◌, String, ◌≡◌, refl, Option, none, some, arith, leb, Bool-cases,
  inl, inr, ◌⊎◌, leb→le, leb→lt, ◌∙◌,
}
use minicode_agent_runtime.Scheduler.{
  ScheduledJob, interval_of, advance_past, cron_of, advance_every,
}

pub interval_of-pos : (job : ScheduledJob) → 0 < interval_of job
unfolding interval_of
interval_of-pos job = ground arith

-- With enough fuel the loop ends by its test.
advance_past-lt :
    (fuel next interval after : ℕ)
    → 0 < interval
    → after < next + fuel
    → after < advance_past fuel next interval after
unfolding advance_past
advance_past-lt zero next interval after p h = omega arith
advance_past-lt (suc fuel) next interval after p h = elim (Bool-cases (leb next after)) [
  | inl e ↦ rw e (advance_past-lt fuel (next + interval) interval after p (omega arith))
  | inr e ↦ rw e (leb→lt next after e)
]

-- The result is a whole number of intervals after the start.
advance_past-steps :
    (fuel next interval after : ℕ)
    → (k : ℕ) × (advance_past fuel next interval after ≡ next + k * interval)
unfolding advance_past
advance_past-steps zero next interval after = (0, omega arith)
advance_past-steps (suc fuel) next interval after = elim (Bool-cases (leb next after)) [
  | inl e ↦
      let (k, eq) = advance_past-steps fuel (next + interval) interval after in
      (suc k, rw (e, eq) (omega arith))
  | inr e ↦ (0, rw e (omega arith))
]

-- No earlier one of these instants is past `after`.
advance_past-le :
    (fuel next interval after : ℕ)
    → (advance_past fuel next interval after ≡ next)
      ⊎ (advance_past fuel next interval after ≤ after + interval)
unfolding advance_past
advance_past-le zero next interval after = inl refl
advance_past-le (suc fuel) next interval after = elim (Bool-cases (leb next after)) [
  | inl e ↦ elim (advance_past-le fuel (next + interval) interval after) [
    | inl q ↦ inr (rw (e, q) (omega (arith, leb→le next after e)))
    | inr q ↦ inr (rw e q)
  ]
  | inr e ↦ inl (rw e)
]

-- The next firing of a recurring job that has no cron expression: it exists, lies after `after`,
-- is a positive number of intervals after the old firing, and is the first of these past `after`.
abbrev pub NextFiring : ScheduledJob → ℕ → ℕ → Type 0
NextFiring job after next =
    (after < next)
    × ((k : ℕ) × (next ≡ job.fire_at + suc k * interval_of job))
    × ((next ≡ job.fire_at + interval_of job) ⊎ (next ≤ after + interval_of job))

-- For a job without a cron expression _advance_every returns, and its result lies after the given
-- instant, is a positive number of intervals after the old firing, and is the first such instant
-- past the given one.
pub advance_every-NextFiring :
    (cron : String → String → ℕ → Option ℕ) (job : ScheduledJob) (after : ℕ)
    → cron_of job ≡ none
    → (next : ℕ) × (advance_every cron job after ≡ some next) × NextFiring job after next
unfolding advance_every
advance_every-NextFiring cron job after h =
    let i = interval_of job in
    let (k, eq) = advance_past-steps (suc after) (job.fire_at + i) i after in
    (
      advance_past (suc after) (job.fire_at + i) i after,
      rw h,
      (
        advance_past-lt (suc after) (job.fire_at + i) i after (interval_of-pos job) (omega arith),
        (k, eq ∙ omega arith),
        advance_past-le (suc after) (job.fire_at + i) i after,
      ),
    )
