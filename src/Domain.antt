-- ===== src/Domain.antt =====
-- The domain layer: value objects, entities and their errors (internal/domain).
pub mod Error
pub mod Status
pub mod Priority
pub mod Task
pub mod Role
pub mod User
pub mod Acl
pub mod Label
pub mod TaskAttachment
pub mod Event
