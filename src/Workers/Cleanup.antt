-- ===== src/Workers/Cleanup.antt =====
-- A deletion of an object that fails in TaskUseCase (internal/application/usecase/task/task_usecase.go)
-- goes over the event bus (internal/infrastructure/messaging/memory/eventbus.go) to the consumer
-- (internal/application/worker/event_consumer.go), which tries it again.
use go_clean_arch_poc.Base.{
  ◌<◌, GoString, ◌≡◌, arith, some, [], ◌∷◌, ◌++◌, map, length, str_eq_refl, str_discrete,
}
use go_clean_arch_poc.Base.Dict.{get-put}
use go_clean_arch_poc.Domain.Error.{Error, ok, err}
use go_clean_arch_poc.Domain.Task.{Uuid}
use go_clean_arch_poc.Domain.Event.{
  TaskEvent, attachment_cleanup_requested_type, new_task_attachment_cleanup_requested,
}
use go_clean_arch_poc.Messaging.EventBus.{EventBus, Channel, capacity, channels, send, publish}
use go_clean_arch_poc.Messaging.EventBus.Delivery.{channels-publish}
use go_clean_arch_poc.Tasks.Ports.{FileStorage, EventPublisher, TaskState, TaskUseCase}
use go_clean_arch_poc.Tasks.Shared.{topic_task_events}
use go_clean_arch_poc.Tasks.Writing.{publish_attachment_cleanup_requested, delete_attachment_object}
use go_clean_arch_poc.Workers.{
  EventConsumer, handle_event, register_handler, new_task_attachment_cleanup_handler,
}
use go_clean_arch_poc.Workers.Consuming.{handle_all}

-- The event bus as the publisher of the use case: it returns no error.
abbrev pub bus_publisher : EventPublisher (EventBus TaskEvent)
bus_publisher = record { publish = λ topic evt b. (publish topic evt b, ok tt) }

module _ {C D F : Type 0} (base : TaskUseCase C D F (EventBus TaskEvent))
    (storage : FileStorage F) where
  abbrev pub on_bus : TaskUseCase C D F (EventBus TaskEvent)
  on_bus = record base { file_storage = some storage; event_publisher = some bus_publisher }

  -- A consumer whose handler for cleanup requests is the one of the storage.
  abbrev pub cleaning : EventConsumer F → EventConsumer F
  cleaning c =
      register_handler attachment_cleanup_requested_type
        (new_task_attachment_cleanup_handler (some storage)) c

  handle_all-send :
      (c : EventConsumer F) (task_id attachment_id : Uuid) (key : GoString) (ch : Channel TaskEvent)
      (w : F)
      → handle_all
          (cleaning c)
          (ch ++ new_task_attachment_cleanup_requested task_id attachment_id key ∷ [])
          w
        ≡ (storage.delete key (handle_all (cleaning c) ch w)).0
  unfolding handle_all handle_event register_handler new_task_attachment_cleanup_handler
  handle_all-send c task_id attachment_id key [] w = ground (
    arith,
    get-put str_discrete attachment_cleanup_requested_type attachment_cleanup_requested_type
        (new_task_attachment_cleanup_handler {F = F} (some storage)) c.handlers,
    str_eq_refl attachment_cleanup_requested_type,
  )
  handle_all-send c task_id attachment_id key (evt ∷ ch) w =
      handle_all-send c task_id attachment_id key ch (handle_event (cleaning c) evt w)

  -- Where the event bus is the publisher and the storage fails to delete an object, the use case
  -- returns no error; every channel of the topic of task events has the request sent to it; and a
  -- consumer with the cleanup handler that handles what is then in a channel that was not full
  -- deletes the object after all that was there before.
  pub delete_attachment_object-retried :
      (c : EventConsumer F) (task_id attachment_id : Uuid) (key : GoString)
      (s : TaskState C D F (EventBus TaskEvent)) (f : F) (e : Error) (ch : Channel TaskEvent)
      (w : F)
      → storage.delete key s.files ≡ (f, err e)
      → length ch < capacity
      → let (s', r) = delete_attachment_object on_bus task_id attachment_id key s in
        let evt = new_task_attachment_cleanup_requested task_id attachment_id key in
        (r ≡ ok tt)
        × (channels topic_task_events s'.published
            ≡ map (send evt) (channels topic_task_events s.published))
        × (handle_all (cleaning c) (send evt ch) w
            ≡ (storage.delete key (handle_all (cleaning c) ch w)).0)
  unfolding delete_attachment_object publish_attachment_cleanup_requested send
  delete_attachment_object-retried c task_id attachment_id key s f e ch w h l = (
    ground arith,
    ground (
      arith,
      channels-publish topic_task_events topic_task_events
          (new_task_attachment_cleanup_requested task_id attachment_id key) s.published,
      str_eq_refl topic_task_events,
    ),
    ground (arith, handle_all-send c task_id attachment_id key ch w),
  )
