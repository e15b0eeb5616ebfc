-- ===== src/Service/Content.antt =====
-- internal/services/cards.go and internal/services/columns.go: the requests, and their effect without
-- regard to failures.
pub mod Request
pub mod Rules
pub mod Serving
pub mod Serves
pub mod Refines
pub mod Places
pub mod Landing
