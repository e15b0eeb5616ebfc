-- ===== src/Repo.antt =====
-- internal/repositories: each method as the statements that its SQL performs on the tables.
pub mod Statement
pub mod Cascade
pub mod Boards
pub mod Workspaces
pub mod Columns
pub mod Cards
pub mod Documents
pub mod Users
pub mod RefreshTokens
pub mod Invitations
