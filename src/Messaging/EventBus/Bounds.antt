-- ===== src/Messaging/EventBus/Bounds.antt =====
-- How much the channels of EventBus (internal/infrastructure/messaging/memory/eventbus.go) hold over
-- any calls.
use go_clean_arch_poc.Base.{
  ◌≡◌, arith, GoString, Bool, true, false, List, [], ◌∷◌, ◌++◌, map, str_eq, str_discrete,
  if◌then◌else◌,
}
use go_clean_arch_poc.Base.Dict
use go_clean_arch_poc.Base.Dict.{get-put, get-remove}
use go_clean_arch_poc.Messaging.EventBus
use go_clean_arch_poc.Messaging.EventBus.{EventBus, Channel, capacity, channels, new_event_bus}
use go_clean_arch_poc.Messaging.EventBus.Delivery.{IsBounded, map-send-IsBounded, channels-publish}

-- A call of a method that changes the bus.
pub data BusOp {ℓ} (E : Type ℓ) : Type ℓ where
  publish : GoString → E → BusOp E
  publish_batch : GoString → List E → BusOp E
  subscribe unsubscribe : GoString → BusOp E
  close : BusOp E

module _ {ℓ} {E : Type ℓ} where
  pub apply : BusOp E → EventBus E → EventBus E
  apply (publish t e) b = EventBus.publish t e b
  apply (publish_batch t es) b = EventBus.publish_batch t es b
  apply (subscribe t) b = EventBus.subscribe t b
  apply (unsubscribe t) b = EventBus.unsubscribe t b
  apply close b = EventBus.close b

  pub run : List (BusOp E) → EventBus E → EventBus E
  run [] b = b
  run (op ∷ ops) b = run ops (apply op b)

  abbrev IsValid : EventBus E → Type 0
  IsValid b = (t : GoString) → IsBounded (channels t b)

  IsBounded-subscribed : (chs : List (Channel E)) → IsBounded chs → IsBounded (chs ++ [] ∷ [])
  IsBounded-subscribed [] h = (omega arith, tt)
  IsBounded-subscribed (ch ∷ chs) h = (h.0, IsBounded-subscribed chs h.1)

  IsBounded-if :
      (x : Bool) (yes_ no_ chs : List (Channel E))
      → chs ≡ (if x then yes_ else no_)
      → IsBounded yes_
      → IsBounded no_
      → IsBounded chs
  IsBounded-if true yes_ no_ chs e a b = rw (e) a
  IsBounded-if false yes_ no_ chs e a b = rw (e) b

  publish-IsValid :
      (t : GoString) (e : E) (b : EventBus E) → IsValid b → IsValid (EventBus.publish t e b)
  publish-IsValid t e b v j =
      IsBounded-if (str_eq t j) (map (EventBus.send e) (channels j b)) (channels j b) _
        (channels-publish t j e b) (map-send-IsBounded (channels j b) e (v j)) (v j)

  publish_batch-IsValid :
      (t : GoString) (es : List E) (b : EventBus E)
      → IsValid b
      → IsValid (EventBus.publish_batch t es b)
  unfolding EventBus.publish_batch
  publish_batch-IsValid t [] b v = v
  publish_batch-IsValid t (e ∷ es) b v = publish_batch-IsValid t es _ (publish-IsValid t e b v)

  channels-subscribe :
      (t j : GoString) (b : EventBus E)
      → channels j (EventBus.subscribe t b)
        ≡ (if str_eq t j then channels t b ++ [] ∷ [] else channels j b)
  unfolding channels EventBus.subscribe
  channels-subscribe t j b =
      ground (arith, get-put str_discrete t j (channels t b ++ [] ∷ []) b.subscribers)

  channels-unsubscribe :
      (t j : GoString) (b : EventBus E)
      → channels j (EventBus.unsubscribe t b) ≡ (if str_eq t j then [] else channels j b)
  unfolding channels EventBus.unsubscribe
  channels-unsubscribe t j b = ground (arith, get-remove str_discrete t j b.subscribers)

  apply-IsValid : (op : BusOp E) (b : EventBus E) → IsValid b → IsValid (apply op b)
  unfolding apply
  apply-IsValid (publish t e) b v = publish-IsValid t e b v
  apply-IsValid (publish_batch t es) b v = publish_batch-IsValid t es b v
  apply-IsValid (subscribe t) b v = λ j.
      IsBounded-if (str_eq t j) (channels t b ++ [] ∷ []) (channels j b) _
        (channels-subscribe t j b) (IsBounded-subscribed (channels t b) (v t)) (v j)
  apply-IsValid (unsubscribe t) b v =
      λ j. IsBounded-if (str_eq t j) [] (channels j b) _ (channels-unsubscribe t j b) tt (v j)
  apply-IsValid close b v = unfold channels EventBus.close Dict.get in λ j. tt

  run-IsValid : (ops : List (BusOp E)) (b : EventBus E) → IsValid b → IsValid (run ops b)
  unfolding run
  run-IsValid [] b v = v
  run-IsValid (op ∷ ops) b v = run-IsValid ops (apply op b) (apply-IsValid op b v)

  -- Over any calls on a new bus every channel that is open holds at most 100 events.
  pub run-new_event_bus-IsBounded :
      (ops : List (BusOp E)) (t : GoString) → IsBounded (channels t (run ops new_event_bus))
  unfolding channels new_event_bus Dict.get
  run-new_event_bus-IsBounded ops t = run-IsValid ops new_event_bus (λ j. tt) t
