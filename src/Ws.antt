-- ===== src/Ws.antt =====
-- internal/ws: the rooms of documents and of boards, with the channels of their clients.
pub mod Channel
pub mod Room
pub mod BoardRoom
pub mod Hub
