-- ===== src/Ai.antt =====
-- The AI side: app/ai/embeddings, app/ai/providers and app/ai/agents.
pub mod Chunking
pub mod Coverage
pub mod Errors
pub mod Providers
pub mod Agent
pub mod Fallback
pub mod Serving
pub mod Provenance
pub mod Tests
