-- ===== src/TribunalHttp.antt =====
-- The earlier web server, in C: src/tribunal_http.c, which the Makefile no longer builds.
pub mod Jobs
pub mod Escape
pub mod Scan
pub mod Surroundings
pub mod Reply
pub mod Handlers
pub mod Code
pub mod Routes
pub mod Service
mod Examples
