-- ===== src/Scheduler/Recovery.antt =====
-- `load_and_recover` of agent/scheduler.py: the jobs that are read from disk at a start.
--
-- The file's jobs are a parameter; a naive instant on disk counts as UTC.
pub mod Kept
use minicode_agent_runtime.Prelude.{
  ℕ, ◌-◌, ◌*◌, String, Option, none, some, List, [], ◌∷◌, leb, not, if◌then◌else◌, Bool,
}
use minicode_agent_runtime.Prelude.Dict.{Dict, put}
use minicode_agent_runtime.Scheduler.{ScheduledJob, is_every, advance_every, second}

-- `GRACE_SECONDS`
abbrev pub grace : ℕ
grace = 300 * second

-- `job.fire_at <= now`
unfoldable pub is_late : ℕ → ScheduledJob → Bool
is_late now job = leb job.fire_at now

-- `age <= self.GRACE_SECONDS`
unfoldable pub in_grace : ℕ → ScheduledJob → Bool
in_grace now job = leb (now - job.fire_at) grace

module _ (cron : String → String → ℕ → Option ℕ) where
  recover_every : ScheduledJob → Dict ScheduledJob → Option ℕ → Option (Dict ScheduledJob)
  recover_every job jobs none = none
  recover_every job jobs (some next) = some (put jobs job.id (record job { fire_at = next }))

  -- The body of the loop; none where the cron library raises, which ends the recovery.
  unfoldable pub recover_job : ℕ → ScheduledJob → Dict ScheduledJob → Option (Dict ScheduledJob)
  unfolding recover_every
  recover_job now job jobs =
      if not job.enabled
      then some jobs
      else if is_late now job
      then (if is_every job
          then recover_every job jobs (advance_every cron job now)
          else if in_grace now job
          then some (put jobs job.id job)
          else some jobs)
      else some (put jobs job.id job)

  unfoldable pub recover : ℕ → List ScheduledJob → Dict ScheduledJob → Option (Dict ScheduledJob)
  recover now [] jobs = some jobs
  recover now (job ∷ rest) jobs = elim (recover_job now job jobs) [
    | none ↦ none
    | some jobs' ↦ recover now rest jobs'
  ]
