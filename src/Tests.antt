-- ===== src/Tests.antt =====
-- A small database, on which the theorems are applied.
mod Boards
mod Positions
mod Content
mod Rooms
mod Hub
mod Views
mod Documents
mod Accounts
mod Invitations
mod Limits
mod Tokens
