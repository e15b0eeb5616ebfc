-- ===== src/Service/Content/Serves.antt =====
-- internal/services/cards.go and internal/services/columns.go, request by request.
pub mod Columns
pub mod Cards
pub mod Moves
