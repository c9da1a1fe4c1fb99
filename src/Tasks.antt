-- ===== src/Tasks.antt =====
-- TaskUseCase (internal/application/usecase/task/task_usecase.go): its ports, the caches and events
-- that its methods share, its methods, and what they guarantee.
pub mod Ports
pub mod Shared
pub mod Writing
pub mod Editing
pub mod Reading
pub mod Filename
pub mod Attachments
pub mod Caches
pub mod Calls
pub mod Fresh
pub mod Schema
pub mod QueryBuilder
pub mod Scanned
pub mod Table
pub mod Rows
pub mod Stored
pub mod Valid
pub mod Files
pub mod ListKeys
pub mod Uploads
