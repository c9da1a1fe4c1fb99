-- ===== src/Workers/Consuming.antt =====
-- What the loop of EventConsumer (internal/application/worker/event_consumer.go) handles, and what a
-- Start that fails leaves.
use go_clean_arch_poc.Base.{
  GoString, bytes, Bool, true, false, ◌≡◌, ◌↔◌, ◌⊎◌, inl, inr, refl, ap, arith, List, [], ◌∷◌, ◌++◌,
}
use go_clean_arch_poc.Domain.Error.{Error, ok, err}
use go_clean_arch_poc.Domain.Event.{TaskEvent}
use go_clean_arch_poc.Messaging.EventBus.Delivery.{append_one, append_nil}
use go_clean_arch_poc.Workers.{
  EventConsumer, EventSubscriber, Consumes, handle_event, start, signal_stop_and_wait,
  reset_stop_state,
}

module _ {W : Type 0} where
  -- The events of a list, one after another.
  unfoldable pub handle_all : EventConsumer W → List TaskEvent → W → W
  handle_all c [] w = w
  handle_all c (evt ∷ ch) w = handle_all c ch (handle_event c evt w)

  -- The first events of the channel have been handled, in order and each once, and the others left;
  -- either the consumer was stopped, or the channel was closed and is empty.
  abbrev pub HasEnded :
      EventConsumer W → Bool → Bool → List TaskEvent → W → List TaskEvent → W → Type 0
  unfolding handle_all
  HasEnded c closed stopping ch w left w' =
      (first : List TaskEvent) × (ch ≡ first ++ left)
      × (w' ≡ handle_all c first w)
      × ((stopping ≡ true) ⊎ ((closed ≡ true) × (left ≡ [])))

  Consumes-HasEnded :
      (c : EventConsumer W) (closed stopping : Bool) (ch left : List TaskEvent) (w w' : W)
      → Consumes c closed stopping ch w left w'
      → HasEnded c closed stopping ch w left w'
  unfolding handle_all
  Consumes-HasEnded c closed stopping ch left w w' (Consumes.handled {evt} k) =
      let (first, e, h, n) = Consumes-HasEnded c closed stopping _ left _ w' k in
      (evt ∷ first, ap (λ x. evt ∷ x) e, h, n)
  Consumes-HasEnded c closed stopping ch left w w' (Consumes.ended k) =
      ([], refl, refl, inr (k, refl))
  Consumes-HasEnded c closed stopping ch left w w' (Consumes.interrupted k) =
      ([], refl, refl, inl k)

  ends-Consumes :
      (c : EventConsumer W) (closed stopping : Bool) (left : List TaskEvent) (w : W)
      → (stopping ≡ true) ⊎ ((closed ≡ true) × (left ≡ []))
      → Consumes c closed stopping left w left w
  ends-Consumes c closed stopping left w (inl k) = Consumes.interrupted k
  ends-Consumes c closed stopping left w (inr (k, e)) = rw e (Consumes.ended k)

  handle_all-Consumes :
      (c : EventConsumer W) (closed stopping : Bool) (first left : List TaskEvent) (w : W)
      → (stopping ≡ true) ⊎ ((closed ≡ true) × (left ≡ []))
      → Consumes c closed stopping (first ++ left) w left (handle_all c first w)
  unfolding handle_all
  handle_all-Consumes c closed stopping [] left w h = ends-Consumes c closed stopping left w h
  handle_all-Consumes c closed stopping (evt ∷ first) left w h =
      Consumes.handled (handle_all-Consumes c closed stopping first left (handle_event c evt w) h)

  HasEnded-Consumes :
      (c : EventConsumer W) (closed stopping : Bool) (ch left : List TaskEvent) (w w' : W)
      → HasEnded c closed stopping ch w left w'
      → Consumes c closed stopping ch w left w'
  unfolding handle_all
  HasEnded-Consumes c closed stopping ch left w w' (first, e, h, n) =
      rw (e, h) (handle_all-Consumes c closed stopping first left w n)

  -- The loop of a consumer can end exactly in this way: it has handled the first events of its
  -- channel, in order and each once, and left the others; and either it was stopped, or the
  -- channel was closed and nothing is left. Both ends are always reached by a run.
  pub Consumes-iff :
      (c : EventConsumer W) (closed stopping : Bool) (ch left : List TaskEvent) (w w' : W)
      → Consumes c closed stopping ch w left w' ↔ HasEnded c closed stopping ch w left w'
  Consumes-iff c closed stopping ch left w w' = (
    Consumes-HasEnded c closed stopping ch left w w',
    HasEnded-Consumes c closed stopping ch left w w',
  )

  -- A Start that fails leaves no goroutine running, and a consumer with its handlers that can be started
  -- again.
  pub start-err :
      {B : Type 0} (subscriber : EventSubscriber B) (topics : List GoString)
      (c c' : EventConsumer W) (b b' : B) (e : Error)
      → start subscriber topics c b ≡ ((c', b'), err e)
      → (c'.handlers ≡ c.handlers) × (c'.running ≡ []) × (c'.stopped ≡ false)
  unfolding start signal_stop_and_wait reset_stop_state
  start-err subscriber [] c c' b b' e h = ground arith
  start-err subscriber (topic ∷ topics) c c' b b' e h =
      let next : EventConsumer W = record c { running = c.running ++ topic ∷ [] } in
      let b1 = (subscriber.subscribe topic (bytes "event-consumer") b).0 in
      ground (arith, start-err subscriber topics next c' b1 b' e)

  -- A Start that succeeds runs one more goroutine for each topic, in order.
  pub start-ok :
      {B : Type 0} (subscriber : EventSubscriber B) (topics : List GoString)
      (c c' : EventConsumer W) (b b' : B)
      → start subscriber topics c b ≡ ((c', b'), ok tt)
      → (c'.handlers ≡ c.handlers) × (c'.running ≡ c.running ++ topics) × (c'.stopped ≡ c.stopped)
  unfolding start signal_stop_and_wait reset_stop_state
  start-ok subscriber [] c c' b b' h = ground (arith, append_nil c.running)
  start-ok subscriber (topic ∷ topics) c c' b b' h =
      let next : EventConsumer W = record c { running = c.running ++ topic ∷ [] } in
      let b1 = (subscriber.subscribe topic (bytes "event-consumer") b).0 in
      ground (arith, start-ok subscriber topics next c' b1 b', append_one c.running topics topic)
