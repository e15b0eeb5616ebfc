-- ===== src/Middleware.antt =====
-- internal/middleware: what is settled about a caller before a handler runs.
pub mod Board
pub mod RateLimit
pub mod Workspace
pub mod Auth
