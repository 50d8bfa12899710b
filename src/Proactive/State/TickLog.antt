-- ===== src/Proactive/State/TickLog.antt =====
-- proactive_v2/state.py: the log of ticks and of their steps. The lists of ids are kept as they are.
use minicode_agent_runtime.Prelude.{ℕ, String, Bool, List, [], ◌∷◌, ◌++◌, Option, none, some}
use minicode_agent_runtime.Prelude.Dict.{Dict, get, put}

-- What the end of a tick adds to its row
pub record TickOutcome : Type 0 where
  pub finished_at : String
  pub terminal_action : Option String
  pub skip_reason : String
  pub steps_taken : ℕ
  pub alert_count : ℕ
  pub content_count : ℕ
  pub context_count : ℕ
  pub interesting_ids : List String
  pub discarded_ids : List String
  pub cited_ids : List String
  pub drift_entered : Bool
  pub final_message : String

-- A row of `tick_log` under its tick_id; it has no outcome until the tick has ended.
pub record TickRow : Type 0 where
  pub session_key : String
  pub started_at : String
  pub gate_exit : Option String
  pub outcome : Option TickOutcome

-- A row of `tick_step_log`
pub record TickStep (Any : Type 0) : Type 0 where
  pub tick_id : String
  pub step_index : ℕ
  pub phase : String
  pub tool_name : String
  pub tool_call_id : String
  pub tool_args : Dict Any
  pub tool_result_text : String
  pub terminal_action_after : Option String
  pub skip_reason_after : String
  pub interesting_ids_after : List String
  pub discarded_ids_after : List String
  pub cited_ids_after : List String
  pub final_message_after : String

pub record TickLog (Any : Type 0) : Type 0 where
  pub ticks : Dict TickRow
  pub steps : List (TickStep Any)

outcome_of : Option TickRow → Option TickOutcome
outcome_of none = none
outcome_of (some row) = row.outcome

module _ {Any : Type 0} where
  -- `record_tick_log_start`: a row that there is keeps its outcome.
  unfoldable pub record_tick_log_start :
      (tick_id session_key started_at : String) → Option String → TickLog Any → TickLog Any
  unfolding outcome_of
  record_tick_log_start tick_id session_key started_at gate_exit log = record log {
    ticks = put log.ticks tick_id (record {
      session_key = session_key;
      started_at = started_at;
      gate_exit = gate_exit;
      outcome = outcome_of (get log.ticks tick_id);
    });
  }

  -- `record_tick_log_finish`
  unfoldable pub record_tick_log_finish :
      (tick_id session_key started_at : String)
      → Option String
      → TickOutcome
      → TickLog Any
      → TickLog Any
  record_tick_log_finish tick_id session_key started_at gate_exit outcome log = record log {
    ticks = put log.ticks tick_id (record {
      session_key = session_key;
      started_at = started_at;
      gate_exit = gate_exit;
      outcome = some outcome;
    });
  }

  -- `record_tick_step_log`
  unfoldable pub record_tick_step_log : TickStep Any → TickLog Any → TickLog Any
  record_tick_step_log step log = record log { steps = log.steps ++ step ∷ [] }
