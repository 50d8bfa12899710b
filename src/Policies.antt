-- ===== src/Policies.antt =====
-- agent/policies: decisions before a turn.
pub mod HistoryRoute
