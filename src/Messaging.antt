-- ===== src/Messaging.antt =====
-- The event bus inside the process (internal/infrastructure/messaging/memory/eventbus.go).
pub mod EventBus
