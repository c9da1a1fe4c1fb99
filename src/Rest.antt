-- ===== src/Rest.antt =====
-- The REST transport (internal/transport/rest).
pub mod Response
pub mod Query
pub mod Guards
pub mod Replies
pub mod TaskHandlers
pub mod UserHandlers
pub mod AuthHandlers
pub mod LabelHandlers
pub mod Router
pub mod Refusals
pub mod Access
pub mod Locked
pub mod Pages
