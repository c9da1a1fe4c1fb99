-- ===== src/Workers.antt =====
-- The consumer of events and the handler that deletes the objects of attachments later
-- (internal/application/worker/event_consumer.go, task_attachment_cleanup_handler.go). `W` is the state
-- that handlers change, `B` that of the subscriber. A method holds its mutex while it reads or writes
-- the fields of the consumer. What is logged is left out.
pub mod Consuming
pub mod Cleanup
use go_clean_arch_poc.Base.{
  GoString, bytes, Bool, true, false, ◌≡◌, Option, none, some, List, [], ◌∷◌, ◌++◌, str_discrete,
}
use go_clean_arch_poc.Base.Dict
use go_clean_arch_poc.Base.Dict.{Dict}
use go_clean_arch_poc.Domain.Error.{Error, Result, ok, err}
use go_clean_arch_poc.Domain.Event.{TaskEvent, Payload, TaskAttachmentCleanupRequested, event_type}
use go_clean_arch_poc.Tasks.Ports.{FileStorage}

abbrev pub EventHandler : Type 0 → Type 0
EventHandler W = TaskEvent → W → W × Result (Unit {0})

-- `running` is the topics of the goroutines that are running; `stopped` holds once stopCh is closed.
pub record EventConsumer (W : Type 0) : Type 0 where
  pub handlers : Dict GoString (EventHandler W)
  pub stopped : Bool
  pub running : List GoString

-- The part of EventSubscriber that the consumer calls, with the topic and the group.
pub record EventSubscriber (B : Type 0) : Type 0 where
  pub subscribe : GoString → GoString → B → B × Result (Unit {0})

module _ {W : Type 0} where
  abbrev pub new_event_consumer : EventConsumer W
  new_event_consumer = record { handlers = []; stopped = false; running = [] }

  unfoldable pub register_handler : GoString → EventHandler W → EventConsumer W → EventConsumer W
  register_handler type handler c = record c {
    handlers = Dict.put str_discrete type handler c.handlers;
  }

  -- It returns once every goroutine has ended.
  unfoldable pub signal_stop_and_wait : EventConsumer W → EventConsumer W
  signal_stop_and_wait c = record c { stopped = true; running = [] }

  unfoldable pub stop : EventConsumer W → EventConsumer W
  unfolding signal_stop_and_wait
  stop c = signal_stop_and_wait c

  unfoldable pub reset_stop_state : EventConsumer W → EventConsumer W
  reset_stop_state c = record c { stopped = false }

  unfoldable pub start :
      {B : Type 0}
      → EventSubscriber B
      → List GoString
      → EventConsumer W
      → B
      → (EventConsumer W × B) × Result (Unit {0})
  unfolding signal_stop_and_wait reset_stop_state
  start subscriber [] c b = ((c, b), ok tt)
  start subscriber (topic ∷ topics) c b =
      let (b', r) = subscriber.subscribe topic (bytes "event-consumer") b in
      let rest = start subscriber topics (record c { running = c.running ++ topic ∷ [] }) b' in
      elim r [
        | ok _ ↦ rest
        | err e ↦ (
          (reset_stop_state (signal_stop_and_wait c), b'),
          err (Error.errorf "failed to subscribe to topic" e),
        )
      ]

  -- An event without a handler is dropped, and the error of a handler is only logged.
  unfoldable pub handle_event : EventConsumer W → TaskEvent → W → W
  handle_event c evt w = elim (Dict.get str_discrete (event_type evt) c.handlers) [
    | none ↦ w
    | some handler ↦ (handler evt w).0
  ]

  -- The loop of a goroutine on what its channel holds: from the events of the channel and a state to
  -- the events that are left and a state. `closed` says that the channel is closed, `stopping` that
  -- the context is done or stopCh closed, which the loop may choose at any time.
  pub data Consumes (c : EventConsumer W) (closed stopping : Bool)
      : List TaskEvent → W → List TaskEvent → W → Type 0 where
    handled :
        {evt : TaskEvent} {ch left : List TaskEvent} {w w' : W}
        → Consumes c closed stopping ch (handle_event c evt w) left w'
        → Consumes c closed stopping (evt ∷ ch) w left w'
    ended : {w : W} → closed ≡ true → Consumes c closed stopping [] w [] w
    interrupted :
        {ch : List TaskEvent} {w : W} → stopping ≡ true → Consumes c closed stopping ch w ch w

-- The type switch of taskAttachmentCleanupEventFromEvent; its error has no cause.
abbrev pub cleanup_event : Payload → Result TaskAttachmentCleanupRequested
cleanup_event (Payload.attachment_cleanup_requested e) = ok e
cleanup_event _ = err (Error.external 1)

-- A storage that is nil is none.
unfoldable pub new_task_attachment_cleanup_handler :
    {F : Type 0} → Option (FileStorage F) → EventHandler F
new_task_attachment_cleanup_handler file_storage evt f = elim (cleanup_event evt.payload) [
  | err e ↦ (f, err e)
  | ok e ↦ elim file_storage [
    | none ↦ (f, err (Error.external 2))
    | some storage ↦ storage.delete e.object_key f
  ]
]
