-- ===== src/Service.antt =====
-- internal/services: the rules that requests obey, over the repositories.
pub mod Access
pub mod Boards
pub mod Columns
pub mod Cards
pub mod Content
pub mod Documents
pub mod Workspaces
pub mod Passwords
pub mod Auth
pub mod Invitations
