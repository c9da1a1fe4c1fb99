-- ===== src/Users.antt =====
-- UserUseCase (internal/application/usecase/user/user_usecase.go): its ports and operations, the
-- seeding of roles, and what they guarantee.
pub mod Ports
pub mod Operations
pub mod Reading
pub mod Caches
pub mod Sessions
pub mod Fresh
pub mod Seeding
pub mod Roles
pub mod Tables
