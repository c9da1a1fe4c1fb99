-- ===== src/Messaging/EventBus/Delivery.antt =====
-- What the subscribers of EventBus (internal/infrastructure/messaging/memory/eventbus.go) have in
-- their channels after events are published.
use go_clean_arch_poc.Base.{
  ℕ, zero, suc, ◌≤◌, ◌≡◌, ◌∙◌, ap, ap₂, inl, inr, Bool-cases, refl, arith, GoString, Bool, true,
  false, Option, none, some, List, [], ◌∷◌, ◌++◌, map, length, length-append, ltb, str_eq,
  str_discrete, if◌then◌else◌, All,
}
use go_clean_arch_poc.Base.Dict
use go_clean_arch_poc.Base.Dict.{Dict, get-put, get-remove}
use go_clean_arch_poc.Messaging.EventBus.{
  EventBus, Channel, capacity, channels, send, publish, publish_batch,
}

-- The first n elements.
unfoldable pub take {ℓ} : {A : Type ℓ} → ℕ → List A → List A
take zero xs = []
take (suc n) [] = []
take (suc n) (x ∷ xs) = x ∷ take n xs

module _ {ℓ} {A : Type ℓ} where
  pub take-le : (n : ℕ) (xs : List A) → length xs ≤ n → take n xs ≡ xs
  unfolding take
  take-le zero [] h = refl
  take-le zero (x ∷ xs) h = ground arith
  take-le (suc n) [] h = refl
  take-le (suc n) (x ∷ xs) h = ap (λ r. x ∷ r) (take-le n xs (omega arith))

  -- What fits after a channel's content is its first n elements.
  pub take-full : (n : ℕ) (xs ys : List A) → length xs ≡ n → take n (xs ++ ys) ≡ xs
  unfolding take
  take-full zero [] ys h = refl
  take-full zero (x ∷ xs) ys h = ground arith
  take-full (suc n) [] ys h = ground arith
  take-full (suc n) (x ∷ xs) ys h = ap (λ r. x ∷ r) (take-full n xs ys (omega arith))

  pub append_nil : (xs : List A) → xs ++ [] ≡ xs
  append_nil [] = refl
  append_nil (x ∷ xs) = ap (λ r. x ∷ r) (append_nil xs)

  pub append_one : (xs ys : List A) (y : A) → (xs ++ y ∷ []) ++ ys ≡ xs ++ y ∷ ys
  append_one [] ys y = refl
  append_one (x ∷ xs) ys y = ap (λ r. x ∷ r) (append_one xs ys y)

module _ {ℓ} {E : Type ℓ} where
  pub channels-publish :
      (topic t : GoString) (evt : E) (b : EventBus E)
      → channels t (publish topic evt b)
        ≡ (if str_eq topic t then map (send evt) (channels t b) else channels t b)
  unfolding channels publish
  channels-publish topic t evt b = elim-found (Dict.get str_discrete topic b.subscribers) refl
    where
      elim-found :
          (o : Option (List (Channel E)))
          → Dict.get str_discrete topic b.subscribers ≡ o
          → channels t (publish topic evt b)
            ≡ (if str_eq topic t then map (send evt) (channels t b) else channels t b)
      elim-found none e = ground arith
      elim-found (some chs) e =
          ground (arith, get-put str_discrete topic t (map (send evt) chs) b.subscribers)

  take-send_to :
      (n : ℕ) (ch : Channel E) (evt : E) (events : List E)
      → length ch ≤ n
      → take n ((if ltb (length ch) n then ch ++ evt ∷ [] else ch) ++ events)
        ≡ take n (ch ++ evt ∷ events)
  take-send_to n ch evt events h = elim (Bool-cases (ltb (length ch) n)) [
    | inl fits ↦ rw (fits, append_one ch events evt)
    | inr full ↦
        rw
          (full, take-full n ch events (ground arith), take-full n ch (evt ∷ events) (ground arith))
  ]

  -- To send what does not fit leaves the first 100.
  pub take-send :
      (ch : Channel E) (evt : E) (events : List E)
      → length ch ≤ capacity
      → take capacity (send evt ch ++ events) ≡ take capacity (ch ++ evt ∷ events)
  unfolding send
  take-send ch evt events h = take-send_to capacity ch evt events h

  pub length-send :
      (ch : Channel E) (evt : E) → length ch ≤ capacity → length (send evt ch) ≤ capacity
  unfolding send
  length-send ch evt h = ground (arith, length-append ch (evt ∷ []))

  abbrev pub IsBounded : List (Channel E) → Type 0
  IsBounded = All (λ ch. length ch ≤ capacity)

  pub map-send-IsBounded :
      (chs : List (Channel E)) (evt : E) → IsBounded chs → IsBounded (map (send evt) chs)
  map-send-IsBounded [] evt h = tt
  map-send-IsBounded (ch ∷ chs) evt h = (length-send ch evt h.0, map-send-IsBounded chs evt h.1)

  map-take-send :
      (chs : List (Channel E)) (evt : E) (events : List E)
      → IsBounded chs
      → map (λ ch. take capacity (ch ++ events)) (map (send evt) chs)
        ≡ map (λ ch. take capacity (ch ++ evt ∷ events)) chs
  map-take-send [] evt events h = refl
  map-take-send (ch ∷ chs) evt events h =
      ap₂ (λ x xs. x ∷ xs) (take-send ch evt events h.0) (map-take-send chs evt events h.1)

  map-take-nil :
      (chs : List (Channel E)) → IsBounded chs → map (λ ch. take capacity (ch ++ [])) chs ≡ chs
  map-take-nil [] h = refl
  map-take-nil (ch ∷ chs) h =
      ap₂ (λ x xs. x ∷ xs) (ap (take capacity) (append_nil ch) ∙ take-le capacity ch h.0)
        (map-take-nil chs h.1)

  publish_first :
      (at : Bool) (chs chs' : List (Channel E)) (evt : E) (events : List E)
      → chs' ≡ (if at then map (send evt) chs else chs)
      → IsBounded chs
      → IsBounded chs'
        × ((if at then map (λ ch. take capacity (ch ++ events)) chs' else chs')
            ≡ (if at then map (λ ch. take capacity (ch ++ evt ∷ events)) chs else chs))
  publish_first true chs chs' evt events e h = (
    rw (e) (map-send-IsBounded chs evt h),
    ap (map (λ ch. take capacity (ch ++ events))) e ∙ map-take-send chs evt events h,
  )
  publish_first false chs chs' evt events e h = (rw (e) h, e)

  -- After PublishBatch on a topic each of its channels, of at most 100 events before, holds the
  -- first 100 of its events followed by the published ones, in their order; the channels of
  -- another topic are what they were.
  pub channels-publish_batch :
      (topic t : GoString) (events : List E) (b : EventBus E)
      → IsBounded (channels t b)
      → channels t (publish_batch topic events b) ≡ (
          if str_eq topic t
          then map (λ ch. take capacity (ch ++ events)) (channels t b)
          else channels t b)
  unfolding publish_batch
  channels-publish_batch topic t [] b h = ground (arith, map-take-nil (channels t b) h)
  channels-publish_batch topic t (evt ∷ events) b h =
      let first =
        publish_first (str_eq topic t) (channels t b) (channels t (publish topic evt b)) evt events
          (channels-publish topic t evt b) h in
      channels-publish_batch topic t events (publish topic evt b) first.0 ∙ first.1
