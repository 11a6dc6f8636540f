-- ===== src/Core.antt =====
-- The debate engine: src/core.
pub mod Types
pub mod Analyst
pub mod Pool
pub mod Election
pub mod Council
pub mod ConfigParser
pub mod ConfigValidator
mod Examples
