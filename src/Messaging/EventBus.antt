-- ===== src/Messaging/EventBus.antt =====
-- EventBus (internal/infrastructure/messaging/memory/eventbus.go). Subscribe, Unsubscribe
-- and Close hold the write lock from their first line to their last, Publish a read lock, which other
-- calls of Publish share, and PublishBatch none of its own, as it calls Publish for one event after
-- another. Calls that overlap may therefore interleave their sends; here a call is one step, and
-- calls come one after another. A channel is the list of the events in its
-- buffer, the oldest first; it stands in the list of the one topic that Subscribe made it for until
-- it is closed, so that no method sends on a closed channel or closes one twice. What a receiver may
-- still read from a closed channel is in `closed`. A method whose error is always nil returns none.
pub mod Delivery
pub mod Bounds
use go_clean_arch_poc.Base.{
  ℕ, ◌≡◌, GoString, Bool, true, false, Option, none, some, List, [], ◌∷◌, ◌++◌, map, length, ltb,
  str_discrete, if◌then◌else◌,
}
use go_clean_arch_poc.Base.Dict
use go_clean_arch_poc.Base.Dict.{Dict}

abbrev pub Channel {ℓ} : Type ℓ → Type ℓ
Channel E = List E

-- `make(chan event.Event, 100)`
abbrev pub capacity : ℕ
capacity = 100

pub record EventBus {ℓ} (E : Type ℓ) : Type ℓ where
  pub subscribers : Dict GoString (List (Channel E))
  pub closed : List (Channel E)

-- `subscribers[topic]`, which is nil where the key is missing.
abbrev pub or_nil {ℓ} : {A : Type ℓ} → Option (List A) → List A
or_nil none = []
or_nil (some xs) = xs

module _ {ℓ} {E : Type ℓ} where
  unfoldable pub new_event_bus : EventBus E
  new_event_bus = record { subscribers = []; closed = [] }

  unfoldable pub channels : GoString → EventBus E → List (Channel E)
  channels topic b = or_nil (Dict.get str_discrete topic b.subscribers)

  -- `select { case ch <- evt: default: }`
  unfoldable pub send : E → Channel E → Channel E
  send evt ch = if ltb (length ch) capacity then ch ++ evt ∷ [] else ch

  unfoldable pub publish : GoString → E → EventBus E → EventBus E
  publish topic evt b = elim (Dict.get str_discrete topic b.subscribers) [
    | none ↦ b
    | some chs ↦ record b {
      subscribers = Dict.put str_discrete topic (map (send evt) chs) b.subscribers;
    }
  ]

  unfoldable pub publish_batch : GoString → List E → EventBus E → EventBus E
  publish_batch topic [] b = b
  publish_batch topic (evt ∷ events) b = publish_batch topic events (publish topic evt b)

  unfoldable pub subscribe : GoString → EventBus E → EventBus E
  unfolding channels
  subscribe topic b = record b {
    subscribers = Dict.put str_discrete topic (channels topic b ++ [] ∷ []) b.subscribers;
  }

  unfoldable pub unsubscribe : GoString → EventBus E → EventBus E
  unsubscribe topic b = elim (Dict.get str_discrete topic b.subscribers) [
    | none ↦ b
    | some chs ↦ record {
      subscribers = Dict.remove str_discrete topic b.subscribers;
      closed = b.closed ++ chs;
    }
  ]

  -- The channels of all topics.
  unfoldable pub all_channels : Dict GoString (List (Channel E)) → List (Channel E)
  all_channels [] = []
  all_channels ((_, chs) ∷ m) = chs ++ all_channels m

  unfoldable pub close : EventBus E → EventBus E
  close b = record { subscribers = []; closed = b.closed ++ all_channels b.subscribers }
