-- ===== src/Tests.antt =====
-- The theorems at concrete inputs.
mod Tasks
mod Access
mod Caching
mod Events
mod Labelling
mod TaskService
mod Sessions
mod Libraries
mod TaskStorage
mod UserService
mod Uploads
mod Seeding
mod Transport
