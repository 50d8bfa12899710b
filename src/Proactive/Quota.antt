-- ===== src/Proactive/Quota.antt =====
-- proactive_v2/anyaction.py: the daily quota of actions, `QuotaStore`, and `AnyActionGate`.
pub mod Daily
use minicode_agent_runtime.Prelude.{
  ℕ, String, Bool, true, false, ◌-◌, ◌*◌, ◌+◌, ◌/◌, ◌%◌, max, min, leb, ltb, ◌==◌, if◌then◌else◌,
  List, [], ◌∷◌, Option, none, some, str_eq, ◌&&◌,
}

-- Instants are microseconds; a wall clock counts them from a midnight, so a day is a number.
abbrev pub second : ℕ
second = 1000000

abbrev pub hour : ℕ
hour = 3600000000

abbrev pub day : ℕ
day = 86400000000

-- `ZoneInfo`: the wall clock at an instant, and the instant of a wall clock.
pub record Zone : Type 0 where
  pub key : String
  pub local : ℕ → ℕ
  pub utc : ℕ → ℕ

-- The text `{date}@{reset_hour}@{zone}`, by its parts; the empty one before the first use.
pub data WindowKey : Type 0 where
  no_window : WindowKey
  window : ℕ → ℕ → String → WindowKey

abbrev pub same_window : WindowKey → WindowKey → Bool
same_window no_window no_window = true
same_window no_window (window d h z) = false
same_window (window d h z) no_window = false
same_window (window d h z) (window d' h' z') = d == d' && h == h' && str_eq z z'

-- `self._state`. An instant is kept as ISO text, which parses to it again; empty text is none.
pub record QuotaState : Type 0 where
  pub window_key : WindowKey
  pub next_reset_at : Option ℕ
  pub used : ℕ
  pub last_action_at : Option ℕ

-- The store and its file.
pub record QuotaStore : Type 0 where
  pub state : QuotaState
  pub saved : Option QuotaState

pub record QuotaSnapshot : Type 0 where
  pub window_key : WindowKey
  pub next_reset_at : ℕ
  pub used : ℕ
  pub last_action_at : Option ℕ

-- `_load`
unfoldable pub load : Option QuotaState → QuotaState
load none = record { window_key = no_window; next_reset_at = none; used = 0; last_action_at = none }
load (some s) = s

unfoldable pub quota_store : Option QuotaState → QuotaStore
unfolding load
quota_store file = record { state = load file; saved = file }

-- `_window_meta`: the key, and the next reset on the wall clock. The hour is below 24, and the
-- first day of the calendar is not asked for: there the source raises.
unfoldable pub window_meta : ℕ → ℕ → Zone → WindowKey × ℕ
window_meta now reset_hour tz =
    let local_now = tz.local now in
    let today = local_now / day in
    let reset_today = today * day + reset_hour * hour in
    if leb reset_today local_now
    then (window today reset_hour tz.key, reset_today + day)
    else (window (today - 1) reset_hour tz.key, reset_today)

unfoldable pub save : QuotaStore → QuotaStore
save s = record { state = s.state; saved = some s.state }

-- `_rollover_if_needed`
unfoldable pub rollover : WindowKey → ℕ → QuotaStore → QuotaStore
rollover key next_reset s =
    if same_window s.state.window_key key
    then s
    else save (record {
      state = record {
        window_key = key;
        next_reset_at = some next_reset;
        used = 0;
        last_action_at = s.state.last_action_at;
      };
      saved = s.saved;
    })

abbrev pub or_now : Option ℕ → ℕ → ℕ
or_now none now = now
or_now (some t) now = t

-- `snapshot`
unfoldable pub snapshot : ℕ → ℕ → Zone → QuotaStore → QuotaSnapshot × QuotaStore
snapshot now reset_hour tz s =
    let (key, next_local) = window_meta now reset_hour tz in
    let s' = rollover key (tz.utc next_local) s in
    (
      record {
        window_key = s'.state.window_key;
        next_reset_at = or_now s'.state.next_reset_at now;
        used = s'.state.used;
        last_action_at = s'.state.last_action_at;
      },
      s',
    )

-- `record_action`
unfoldable pub record_action : ℕ → ℕ → Zone → QuotaStore → QuotaStore
record_action now reset_hour tz s =
    let (snap, s') = snapshot now reset_hour tz s in
    save (record {
      state = record {
        window_key = snap.window_key;
        next_reset_at = some snap.next_reset_at;
        used = s'.state.used + 1;
        last_action_at = some now;
      };
      saved = s'.saved;
    })

-- The settings that the gate reads; probabilities in millionths.
pub record Config : Type 0 where
  pub reset_hour_local : ℕ
  pub timezone : Zone
  pub daily_max_actions : ℕ
  pub min_interval_seconds : ℕ
  pub idle_scale_minutes : ℕ
  pub probability_min : ℕ
  pub probability_max : ℕ

pub data Reason : Type 0 where
  quota_exhausted min_interval probability : Reason

pub record Detail : Type 0 where
  pub reason : Reason
  pub used_today : ℕ
  pub remaining_today : ℕ

-- `now - last < min_interval`
abbrev pub too_soon : Config → ℕ → Option ℕ → Bool
too_soon cfg now none = false
too_soon cfg now (some last) = ltb now (last + cfg.min_interval_seconds * second)

-- The time since the user's last message, in microseconds.
unfoldable pub idle : Config → ℕ → Option ℕ → ℕ
idle cfg now none = cfg.idle_scale_minutes * 60 * second * 2
idle cfg now (some last_user) = now - last_user

-- `1 - exp(-x)`, in millionths, of idle time over the scale is a parameter.
module _ (idle_factor : ℕ → ℕ → ℕ) (cfg : Config) where
  -- `p_act`, in millionths of a millionth; the time factor is 1 at every hour. A difference of the
  -- bounds below 0 lowers the probability, which is at least 0.
  unfoldable pub p_act : ℕ → Option ℕ → ℕ
  unfolding idle
  p_act now last_user =
      let factor =
        idle_factor (idle cfg now last_user) (max cfg.idle_scale_minutes 1 * 60 * second) in
      min 1000000000000 (
        cfg.probability_min * 1000000
        + (cfg.probability_max - cfg.probability_min) * factor
        - (cfg.probability_min - cfg.probability_max) * factor)

  unfoldable pub decide : ℕ → Option ℕ → ℕ → QuotaSnapshot → Bool × Detail
  unfolding p_act
  decide now last_user draw snap =
      let remaining = cfg.daily_max_actions - snap.used in
      let detail : Reason → Detail =
        λ reason. record { reason = reason; used_today = snap.used; remaining_today = remaining } in
      if leb remaining 0
      then (false, detail quota_exhausted)
      else (if too_soon cfg now snap.last_action_at
          then (false, detail min_interval)
          else (ltb draw (p_act now last_user), detail probability))

  -- `should_act`; `draw` is the random number.
  unfoldable pub should_act : ℕ → Option ℕ → ℕ → QuotaStore → (Bool × Detail) × QuotaStore
  unfolding decide
  should_act now last_user draw s =
      let (snap, s') = snapshot now cfg.reset_hour_local cfg.timezone s in
      (decide now last_user draw snap, s')

  -- `AnyActionGate.record_action`
  abbrev pub gate_record : ℕ → QuotaStore → QuotaStore
  gate_record now s = record_action now cfg.reset_hour_local cfg.timezone s

-- A question to the gate, and whether an action followed if it passed.
pub record Occasion : Type 0 where
  pub now : ℕ
  pub last_user : Option ℕ
  pub draw : ℕ
  pub acted : Bool

-- The gate is asked, and the action that follows is recorded at the same instant.
module _ (idle_factor : ℕ → ℕ → ℕ) (cfg : Config) where
  unfoldable pub occur : Occasion → QuotaStore → Bool × QuotaStore
  occur o s =
      let ((passed, detail), s') = should_act idle_factor cfg o.now o.last_user o.draw s in
      if passed && o.acted then (true, gate_record idle_factor cfg o.now s') else (false, s')

  -- The instants of the actions.
  unfoldable pub actions : List Occasion → QuotaStore → List ℕ
  actions [] s = []
  actions (o ∷ os) s =
      let (acted, s') = occur o s in
      let rest = actions os s' in if acted then o.now ∷ rest else rest
