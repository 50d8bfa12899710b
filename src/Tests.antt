-- ===== src/Tests.antt =====
-- Sample data, runs of the model at concrete inputs, and the theorems at inputs that meet their
-- hypotheses, by component.
mod ToolCalls
mod Jobs
mod Deduplication
mod Routing
mod Quotas
mod Catalogue
mod Unlocking
mod Streams
mod Chunks
mod Routes
mod Turns
mod Sessions
mod Marks
mod Checkpoints
mod Memories
mod Consolidations
