-- ===== src/Storage.antt =====
-- The storage layer: src/storage.
pub mod Database
