-- ===== src/Scheduler/Recovery/Kept.antt =====
-- Which jobs a start of agent/scheduler.py's `SchedulerService` keeps.
use minicode_agent_runtime.Prelude.{
  ℕ, ◌-◌, ◌≤◌, ◌<◌, String, true, false, leb, ◌≡◌, ◌≢◌, refl, ◌⊎◌, inl, inr, Option, none, some,
  List, [], ◌∷◌, ◌++◌, leb→le, leb→lt, All, arith, Bool-cases, eq_refl, not, subst, Option-cases,
  sym, ◌∙◌,
}
use minicode_agent_runtime.Prelude.Dict.{Dict, put, has, get-put, All-put}
use minicode_agent_runtime.Scheduler.{
  ScheduledJob, is_every, advance_every, cron_of, next_cron_fire,
}
use minicode_agent_runtime.Scheduler.Advance.{advance_every-NextFiring}
use minicode_agent_runtime.Scheduler.Recovery.{
  grace, recover_every, recover_job, recover, in_grace, is_late,
}

abbrev IfSome : {A : Type 0} → (A → Type 0) → Option A → Type 0
IfSome P none = Unit
IfSome P (some a) = P a

some_inj : {A : Type 0} (a b : A) → some a ≡ some b → a ≡ b
some_inj a b h = cc

IfSome-at : {A : Type 0} (P : A → Type 0) (o : Option A) (a : A) → o ≡ some a → IfSome P o → P a
IfSome-at P none a e h = absurd (cc e)
IfSome-at P (some b) a e h = subst P (some_inj b a e) h

enabled_of : (job : ScheduledJob) → not job.enabled ≡ false → job.enabled ≡ true
enabled_of job h = ground arith

-- An enabled job that fires in the future, one that is not recurring and is late by no more than
-- the grace period, or one with a cron expression that fires at this very instant.
abbrev pub IsReady : ℕ → ScheduledJob → Type 0
IsReady now job =
    (job.enabled ≡ true)
    × ((now < job.fire_at)
        ⊎ (((is_every job ≡ false) × (now - job.fire_at ≤ grace))
            ⊎ ((is_every job ≡ true) × (cron_of job ≢ none) × (job.fire_at ≡ now))))

not-late : (now : ℕ) (job : ScheduledJob) → is_late now job ≡ false → now < job.fire_at
unfolding is_late
not-late now job e = leb→lt job.fire_at now e

late-le : (now : ℕ) (job : ScheduledJob) → is_late now job ≡ true → job.fire_at ≤ now
unfolding is_late
late-le now job e = leb→le job.fire_at now e

in_grace-le : (now : ℕ) (job : ScheduledJob) → in_grace now job ≡ true → now - job.fire_at ≤ grace
unfolding in_grace
in_grace-le now job e = leb→le (now - job.fire_at) grace e

not-in_grace : (now : ℕ) (job : ScheduledJob) → in_grace now job ≡ false → grace < now - job.fire_at
unfolding in_grace
not-in_grace now job e = leb→lt (now - job.fire_at) grace e

-- A firing is not before the instant that it is asked for, as APScheduler promises:
-- `get_next_fire_time(None, now)` may return `now` itself.
abbrev pub CronIsNotBefore : (String → String → ℕ → Option ℕ) → Type 0
CronIsNotBefore cron =
    (expr tz : String) (after next : ℕ) → cron expr tz after ≡ some next → after ≤ next

module _ (cron : String → String → ℕ → Option ℕ) (later : CronIsNotBefore cron) where
  advance_every-le :
      (job : ScheduledJob) (after next : ℕ)
      → advance_every cron job after ≡ some next
      → (after < next) ⊎ ((cron_of job ≢ none) × (next ≡ after))
  advance_every-le job after next h = elim (Option-cases (cron_of job)) [
    | inl e ↦
        let (n, eq, p) = advance_every-NextFiring cron job after e in
        inl (subst (λ t. after < t) (some_inj n next (sym eq ∙ h)) p.0)
    | inr e ↦
        let le = later e.0 job.timezone after next (unfold advance_every in rw e.1 at h) in
        elim (Bool-cases (leb next after)) [
          | inl b ↦ inr (λ c. cc (e.1, c), omega (arith, le, leb→le next after b))
          | inr b ↦ inl (leb→lt next after b)
        ]
  ]

  moved-IsReady :
      (job : ScheduledJob) (now next : ℕ)
      → job.enabled ≡ true
      → is_every job ≡ true
      → (now < next) ⊎ ((cron_of job ≢ none) × (next ≡ now))
      → IsReady now (record job { fire_at = next })
  unfolding cron_of
  moved-IsReady job now next en ev (inl h) = (en, inl h)
  moved-IsReady job now next en ev (inr h) = (en, inr (inr (ev, h.0, h.1)))

  abbrev AllReady : ℕ → Dict ScheduledJob → Type 0
  AllReady now d = All (λ e. IsReady now e.1) d

  put-AllReady :
      (now : ℕ) (job : ScheduledJob) (d : Dict ScheduledJob)
      → IsReady now job
      → AllReady now d
      → AllReady now (put d job.id job)
  put-AllReady now job d r h = All-put (λ e. IsReady now e.1) d job.id job (λ j e. r) h

  recover_every-AllReady :
      (now : ℕ) (job : ScheduledJob) (d : Dict ScheduledJob) (next : Option ℕ)
      → job.enabled ≡ true
      → is_every job ≡ true
      → advance_every cron job now ≡ next
      → AllReady now d
      → IfSome (AllReady now) (recover_every cron job d next)
  unfolding recover_every
  recover_every-AllReady now job d none en ev e h = tt
  recover_every-AllReady now job d (some next) en ev e h =
      put-AllReady now (record job { fire_at = next }) d
        (moved-IsReady job now next en ev (advance_every-le job now next e)) h

  recover_job-AllReady :
      (now : ℕ) (job : ScheduledJob) (d : Dict ScheduledJob)
      → AllReady now d
      → IfSome (AllReady now) (recover_job cron now job d)
  unfolding recover_job
  recover_job-AllReady now job d h = elim (Bool-cases (not job.enabled)) [
    | inl e ↦ rw e h
    | inr en ↦ elim (Bool-cases (is_late now job)) [
      | inr e ↦ rw (en, e) (put-AllReady now job d (enabled_of job en, inl (not-late now job e)) h)
      | inl e ↦ elim (Bool-cases (is_every job)) [
        | inl ev ↦
            rw (en, e, ev)
              (recover_every-AllReady now job d (advance_every cron job now) (enabled_of job en) ev
                refl h)
        | inr ev ↦ elim (Bool-cases (in_grace now job)) [
          | inl g ↦
              rw (en, e, ev, g)
                (put-AllReady now job d (enabled_of job en, inr (inl (ev, in_grace-le now job g)))
                  h)
          | inr g ↦ rw (en, e, ev, g) h
        ]
      ]
    ]
  ]

  recover-AllReady_from :
      (now : ℕ) (jobs : List ScheduledJob) (d : Dict ScheduledJob)
      → AllReady now d
      → IfSome (AllReady now) (recover cron now jobs d)
  unfolding recover
  recover-AllReady_from now [] d h = h
  recover-AllReady_from now (job ∷ rest) d h = elim (Option-cases (recover_job cron now job d)) [
    | inl e ↦ rw (e, recover) tt
    | inr (d', e) ↦
        rw (e, recover)
          (recover-AllReady_from now rest d' (
            IfSome-at (AllReady now) (recover_job cron now job d) d' e
              (recover_job-AllReady now job d h)))
  ]

-- With APScheduler installed, whose trigger gives no instant before the one asked for (it may give
-- that instant itself), every job that load_and_recover leaves is enabled, and it fires in the
-- future, or does not recur and is late by at most the grace period, or has a cron expression and
-- fires at this very instant.
pub recover-AllReady :
    (trigger fallback : String → String → ℕ → Option ℕ)
    → CronIsNotBefore trigger
    → (now : ℕ) (jobs : List ScheduledJob) (d : Dict ScheduledJob)
    → recover (next_cron_fire (some trigger) fallback) now jobs [] ≡ some d
    → All (λ e. IsReady now e.1) d
unfolding next_cron_fire
recover-AllReady trigger fallback later now jobs d h =
    let cron = next_cron_fire (some trigger) fallback in
    IfSome-at (AllReady cron later now) (recover cron now jobs []) d h
      (recover-AllReady_from cron later now jobs [] tt)

-- A job that a start may not lose: it is enabled, and recurs, fires in the future, or is late by
-- at most the grace period.
abbrev pub IsKept : ℕ → ScheduledJob → Type 0
IsKept now job =
    (job.enabled ≡ true)
    × ((is_every job ≡ true) ⊎ ((now < job.fire_at) ⊎ (now - job.fire_at ≤ grace)))

abbrev Holds : String → Dict ScheduledJob → Type 0
Holds id d = has d id ≡ true

put-Holds :
    (d : Dict ScheduledJob) (k id : String) (job : ScheduledJob)
    → Holds id d
    → Holds id (put d k job)
put-Holds d k id job h = ground (arith, get-put d k id job)

put-Holds_self :
    (d : Dict ScheduledJob) (id : String) (job : ScheduledJob) → Holds id (put d id job)
put-Holds_self d id job = ground (arith, get-put d id id job, eq_refl id)

module _ (cron : String → String → ℕ → Option ℕ) where
  recover_every-Holds :
      (job : ScheduledJob) (id : String) (d : Dict ScheduledJob) (next : Option ℕ)
      → Holds id d ⊎ (id ≡ job.id)
      → IfSome (Holds id) (recover_every cron job d next)
  unfolding recover_every
  recover_every-Holds job id d none h = tt
  recover_every-Holds job id d (some next) (inl h) =
      put-Holds d job.id id (record job { fire_at = next }) h
  recover_every-Holds job id d (some next) (inr h) =
      rw h (put-Holds_self d job.id (record job { fire_at = next }))

  recover_job-Holds :
      (now : ℕ) (job : ScheduledJob) (id : String) (d : Dict ScheduledJob)
      → Holds id d
      → IfSome (Holds id) (recover_job cron now job d)
  unfolding recover_job
  recover_job-Holds now job id d h = elim (Bool-cases (not job.enabled)) [
    | inl e ↦ rw e h
    | inr en ↦ elim (Bool-cases (is_late now job)) [
      | inr e ↦ rw (en, e) (put-Holds d job.id id job h)
      | inl e ↦ elim (Bool-cases (is_every job)) [
        | inl ev ↦
            rw (en, e, ev) (recover_every-Holds job id d (advance_every cron job now) (inl h))
        | inr ev ↦ elim (Bool-cases (in_grace now job)) [
          | inl g ↦ rw (en, e, ev, g) (put-Holds d job.id id job h)
          | inr g ↦ rw (en, e, ev, g) h
        ]
      ]
    ]
  ]

  recover_job-Holds_self :
      (now : ℕ) (job : ScheduledJob) (d : Dict ScheduledJob)
      → IsKept now job
      → IfSome (Holds job.id) (recover_job cron now job d)
  unfolding recover_job
  recover_job-Holds_self now job d (en, why) = elim (Bool-cases (not job.enabled)) [
    | inl e ↦ absurd (ground arith)
    | inr en' ↦ elim (Bool-cases (is_late now job)) [
      | inr e ↦ rw (en', e) (put-Holds_self d job.id job)
      | inl e ↦ elim (Bool-cases (is_every job)) [
        | inl ev ↦
            rw (en', e, ev)
              (recover_every-Holds job job.id d (advance_every cron job now) (inr refl))
        | inr ev ↦ elim (Bool-cases (in_grace now job)) [
          | inl g ↦ rw (en', e, ev, g) (put-Holds_self d job.id job)
          | inr g ↦ absurd (ground (arith, late-le now job e, not-in_grace now job g))
        ]
      ]
    ]
  ]

  recover-Holds :
      (now : ℕ) (jobs : List ScheduledJob) (id : String) (d : Dict ScheduledJob)
      → Holds id d
      → IfSome (Holds id) (recover cron now jobs d)
  unfolding recover
  recover-Holds now [] id d h = h
  recover-Holds now (job ∷ rest) id d h = elim (Option-cases (recover_job cron now job d)) [
    | inl e ↦ rw (e, recover) tt
    | inr (d', e) ↦
        rw (e, recover)
          (recover-Holds now rest id d' (
            IfSome-at (Holds id) (recover_job cron now job d) d' e
              (recover_job-Holds now job id d h)))
  ]

  recover-Holds_at :
      (now : ℕ) (before after : List ScheduledJob) (job : ScheduledJob) (d : Dict ScheduledJob)
      → IsKept now job
      → IfSome (Holds job.id) (recover cron now (before ++ job ∷ after) d)
  unfolding recover
  recover-Holds_at now [] after job d k = elim (Option-cases (recover_job cron now job d)) [
    | inl e ↦ rw (e, recover) tt
    | inr (d', e) ↦
        rw (e, recover)
          (recover-Holds now after job.id d' (
            IfSome-at (Holds job.id) (recover_job cron now job d) d' e
              (recover_job-Holds_self now job d k)))
  ]
  recover-Holds_at now (first ∷ before) after job d k =
      elim (Option-cases (recover_job cron now first d)) [
        | inl e ↦ rw (e, recover) tt
        | inr (d', e) ↦ rw (e, recover) (recover-Holds_at now before after job d' k)
      ]

  -- If load_and_recover ends, an enabled job of the file that recurs, fires in the future, or is
  -- late by at most the grace period is among the recovered jobs.
  pub recover-has :
      (now : ℕ) (before after : List ScheduledJob) (job : ScheduledJob) (d : Dict ScheduledJob)
      → IsKept now job
      → recover cron now (before ++ job ∷ after) [] ≡ some d
      → has d job.id ≡ true
  recover-has now before after job d k h =
      IfSome-at (Holds job.id) (recover cron now (before ++ job ∷ after) []) d h
        (recover-Holds_at now before after job [] k)
