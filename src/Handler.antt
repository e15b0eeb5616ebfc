-- ===== src/Handler.antt =====
-- internal/handlers: from a request to the answer, middleware included.
pub mod Boards
pub mod Workspaces
pub mod Sockets
