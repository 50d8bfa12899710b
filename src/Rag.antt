-- ===== src/Rag.antt =====
-- agent/rag: the pipeline that finds documents.
pub mod Chunker
