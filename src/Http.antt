-- ===== src/Http.antt =====
-- The web server: src/http/HttpServer.h and HttpServer.cpp.
pub mod Request
pub mod Jobs
pub mod Pages
pub mod Statistics
pub mod Routes
pub mod Server
pub mod Execution
pub mod Loop
pub mod Interleaving
mod Examples
