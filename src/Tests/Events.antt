-- ===== src/Tests/Events.antt =====
-- The event bus at a concrete input (internal/infrastructure/messaging/memory/eventbus.go).
use go_clean_arch_poc.Base.{
  ℕ, ◌≡◌, arith, bytes, GoString, [], ◌∷◌, ◌++◌, map, str_eq, str_discrete, if◌then◌else◌,
}
use go_clean_arch_poc.Base.Dict
use go_clean_arch_poc.Messaging.EventBus.{EventBus, capacity, channels, publish_batch}
use go_clean_arch_poc.Messaging.EventBus.Delivery.{take, IsBounded, channels-publish_batch}

abbrev topic : GoString
topic = bytes "task-events"

abbrev bus : EventBus ℕ
bus = record { subscribers = (topic, (1 ∷ []) ∷ [] ∷ []) ∷ []; closed = [] }

bounded : IsBounded (channels topic bus)
unfolding channels Dict.get str_discrete
bounded = (omega arith, (omega arith, tt))

channels-publish_batch_example : channels topic (publish_batch topic (2 ∷ 3 ∷ []) bus) ≡ (
    if str_eq topic topic
    then map (λ ch. take capacity (ch ++ 2 ∷ 3 ∷ [])) (channels topic bus)
    else channels topic bus)
channels-publish_batch_example = channels-publish_batch topic topic (2 ∷ 3 ∷ []) bus bounded
