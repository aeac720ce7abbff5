-- ===== src/Broker/Memory/Interleaved.antt =====
-- Concurrent calls on the broker of pkg/broker/memory.go. What `Publish`, `Subscribe` and `Close` do
-- under the lock is one step; behind it each call runs its handlers, one step per handler, in any
-- interleaving with the steps of the others.
pub mod Lists
pub mod Pairs
pub mod Due
pub mod Exact
pub mod Sequential
use apexio.Base.{ℕ, ◌≡◌, false, Option, none, some, List, [], ◌∷◌, ◌++◌, map}
use apexio.Base.Text.{Text}
use apexio.Errors.{Err, Ctx}
use apexio.Broker.Interface.{Message, Handler}
use apexio.Broker.Memory.{Memory, slice_at, append_at, register, close}

module _ (W : Type 0) where
  -- A handler, and the message that it is to be called with.
  pub record Delivery : Type 0 where
    pub handler : Handler W
    pub msg : Message

  -- The broker, the world of the handlers, for each call that has left the lock what it has still
  -- to deliver, what the handlers were called with so far, and what calls that ended with an error
  -- have left out.
  pub record System : Type 0 where
    pub memory : Memory W
    pub world : W
    pub calls : List (List Delivery)
    pub delivered : List Delivery
    pub dropped : List Delivery

  abbrev pub to_each : List (Handler W) → Message → List Delivery
  to_each hs msg = map (λ h. record { handler = h; msg = msg }) hs

  abbrev pub each_to : Handler W → List Message → List Delivery
  each_to h msgs = map (λ msg. record { handler = h; msg = msg }) msgs

  -- A call leaves the lock.
  abbrev pub called : Memory W → List Delivery → System → System
  called m ds s = record s { memory = m; calls = s.calls ++ ds ∷ [] }

  -- The lock section of `Publish`: the message is appended and the handlers of the topic are copied.
  unfoldable pub lock_publish : Text → List ℕ → System → System
  lock_publish topic payload s =
      let msg : Message = record { topic = topic; key = []; value = payload } in
      called (record (s.memory) { topics = append_at topic msg s.memory.topics })
        (to_each (slice_at topic s.memory.handlers) msg) s

  -- That of `Subscribe`: the handler is registered and the messages of the topics are copied.
  unfoldable pub lock_subscribe : List Text → Handler W → System → System
  lock_subscribe topics h s =
      let (m, replay) = register W topics h s.memory [] in called m (each_to h replay) s

  -- The result of the handler of a delivery.
  abbrev pub handle : Delivery → Ctx → W → Option Err × W
  handle d ctx w = d.handler ctx d.msg w

  -- A call enters and leaves the lock; a call runs its next handler, under whatever its context is
  -- by then, and goes on or returns the error; or the broker is closed.
  pub data Step : System → System → Type 0 where
    publishes :
        {s : System} (topic : Text) (payload : List ℕ)
        → s.memory.closed ≡ false
        → Step s (lock_publish topic payload s)
    subscribes :
        {s : System} (topics : List Text) (h : Handler W)
        → s.memory.closed ≡ false
        → Step s (lock_subscribe topics h s)
    handles :
        {s : System} (before after : List (List Delivery)) (d : Delivery) (rest : List Delivery)
        (ctx : Ctx)
        → s.calls ≡ before ++ (d ∷ rest) ∷ after
        → (handle d ctx s.world).0 ≡ none
        → Step s (record s {
          world = (handle d ctx s.world).1;
          calls = before ++ rest ∷ after;
          delivered = s.delivered ++ d ∷ [];
        })
    fails :
        {s : System} (before after : List (List Delivery)) (d : Delivery) (rest : List Delivery)
        (ctx : Ctx) (x : Err)
        → s.calls ≡ before ++ (d ∷ rest) ∷ after
        → (handle d ctx s.world).0 ≡ some x
        → Step s (record s {
          world = (handle d ctx s.world).1;
          calls = before ++ [] ∷ after;
          delivered = s.delivered ++ d ∷ [];
          dropped = s.dropped ++ rest;
        })
    closes : {s : System} → Step s (record s { memory = (close W s.memory).1 })

  pub data Reaches : System → System → Type 0 where
    here : {s : System} → Reaches s s
    next : {s t v : System} → Reaches s t → Step t v → Reaches s v
