-- ===== src/Agent.antt =====
-- agent/core: the loop in which a model and its tools answer a message.
pub mod Reasoner
pub mod Turn
pub mod Memory
pub mod Consolidation
