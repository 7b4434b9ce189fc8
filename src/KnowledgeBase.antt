-- ===== src/KnowledgeBase.antt =====
-- services/knowledge-base: splits documents into passages for an embedder.
pub mod Chunk
