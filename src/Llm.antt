-- ===== src/Llm.antt =====
-- The clients of the language models: src/llm.
pub mod MultiEndpoint
pub mod Factory
pub mod Providers
mod Examples
