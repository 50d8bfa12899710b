-- ===== src/Proactive.antt =====
-- proactive_v2: when the agent may speak unasked.
pub mod Quota
pub mod State
