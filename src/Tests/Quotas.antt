-- ===== src/Tests/Quotas.antt =====
-- The daily quota: samples and examples for proactive_v2/anyaction.py.
use minicode_agent_runtime.Prelude.{ℕ, ◌≡◌, ◌≤◌, refl, none, List, [], ◌∷◌, length, ◌*◌, ◌+◌, true}
use minicode_agent_runtime.Proactive.Quota.{
  Zone, quota_store, Config, Occasion, actions, occur, should_act, decide, snapshot, window_meta,
  rollover, record_action, save, hour, second, day, p_act, window,
}
use minicode_agent_runtime.Proactive.Quota.Daily.{length-actions, actions-Spaced, Spaced}

abbrev plain : Zone
plain = record { key = "UTC"; local = λ t. t; utc = λ t. t }

abbrev settings : Config
settings = record {
  reset_hour_local = 8;
  timezone = plain;
  daily_max_actions = 2;
  min_interval_seconds = 300;
  idle_scale_minutes = 60;
  probability_min = 1000000;
  probability_max = 1000000;
}

abbrev no_idle : ℕ → ℕ → ℕ
no_idle t scale = 0

-- An occasion that many minutes after nine o'clock on day 3; the draw passes.
abbrev after_nine : ℕ → Occasion
after_nine minutes = record {
  now = 3 * day + 9 * hour + minutes * 60 * second;
  last_user = none;
  draw = 5;
  acted = true;
}

abbrev morning : List Occasion
morning = after_nine 0 ∷ after_nine 1 ∷ after_nine 6 ∷ after_nine 30 ∷ []

-- The second comes too soon, the fourth is over the quota.
actions-morning :
    actions no_idle settings morning (quota_store none)
    ≡ (3 * day + 9 * hour) ∷ (3 * day + 9 * hour + 6 * 60 * second) ∷ []
unfolding actions occur should_act decide snapshot window_meta rollover record_action save
    quota_store p_act
actions-morning = refl

length-actions_example : length (actions no_idle settings morning (quota_store none)) ≤ 2
unfolding window_meta
length-actions_example =
    length-actions no_idle settings (window 3 8 "UTC") morning (quota_store none)
      (refl, (refl, (refl, (refl, tt))))

actions-Spaced_example :
    Spaced no_idle settings
      (quota_store none).state.last_action_at
      (actions no_idle settings morning (quota_store none))
actions-Spaced_example = actions-Spaced no_idle settings morning (quota_store none)
