-- ===== src/Broker/Memory.antt =====
-- The in-process broker of pkg/broker/memory.go. What a method does under its lock is one step, and
-- the handlers run behind it; they change a world `W` and not the broker.
pub mod Delivery
pub mod Interleaved
use apexio.Base.{
  ℕ, ◌≡◌, refl, Bool, true, false, Option, none, some, List, [], ◌∷◌, ◌++◌, Result, ok, err,
  if◌then◌else◌,
}
use apexio.Base.Text.{Text, Unicode}
use apexio.Base.Dict.{Dict, lookup, insert}
use apexio.Errors.{Err, Ctx, broker_closed, handler_nil}
use apexio.Schema.Event.{LogEvent}
use apexio.Schema.Wire.{Codec, marshal_event}
use apexio.Broker.Interface.{Message, Handler}

-- `m[k]` of a map of slices: nil for a key that is not there.
abbrev or_nil {ℓ} : {A : Type ℓ} → Option (List A) → List A
or_nil none = []
or_nil (some xs) = xs

unfoldable pub slice_at {ℓ} : {A : Type ℓ} → Text → Dict (List A) → List A
slice_at k m = or_nil (lookup k m)

-- `m[k] = append(m[k], x)`
unfoldable pub append_at {ℓ} : {A : Type ℓ} → Text → A → Dict (List A) → Dict (List A)
append_at k x m = insert k (slice_at k m ++ x ∷ []) m

module _ (W : Type 0) where
  pub record Memory : Type 0 where
    pub closed : Bool
    pub topics : Dict (List Message)
    pub handlers : Dict (List (Handler W))

  -- `NewMemory`
  abbrev pub new_memory : Memory
  new_memory = record { closed = false; topics = []; handlers = [] }

  -- `Messages`
  unfoldable pub messages : Text → Memory → List Message
  messages topic m = slice_at topic m.topics

  -- The handlers in turn, up to the first error.
  unfoldable pub deliver : List (Handler W) → Ctx → Message → W → Option Err × W
  deliver [] ctx msg w = (none, w)
  deliver (h ∷ hs) ctx msg w =
      let (e, w') = h ctx msg w in elim e [ some x ↦ (some x, w') | none ↦ deliver hs ctx msg w' ]

  -- `Publish` of an open broker, from the lock on.
  unfoldable pub publish_payload : Ctx → Text → List ℕ → Memory → W → Option Err × Memory × W
  publish_payload ctx topic payload m w =
      let msg : Message = record { topic = topic; key = []; value = payload } in
      let (e, w') = deliver (slice_at topic m.handlers) ctx msg w in
      (e, record m { topics = append_at topic msg m.topics }, w')

  -- The loop of `Subscribe` over the topics: the handlers, and the messages to replay.
  unfoldable pub register : List Text → Handler W → Memory → List Message → Memory × List Message
  register [] h m replay = (m, replay)
  register (topic ∷ topics) h m replay =
      register topics h (record m { handlers = append_at topic h m.handlers })
        (replay ++ slice_at topic m.topics)

  -- The replay, up to the first error.
  unfoldable pub replay_all : Handler W → Ctx → List Message → W → Option Err × W
  replay_all h ctx [] w = (none, w)
  replay_all h ctx (msg ∷ msgs) w =
      let (e, w') = h ctx msg w in
      elim e [ some x ↦ (some x, w') | none ↦ replay_all h ctx msgs w' ]

  unfoldable pub subscribe :
      Ctx → List Text → Option (Handler W) → Memory → W → Option Err × Memory × W
  subscribe ctx topics none m w = (some handler_nil, m, w)
  subscribe (some x) topics (some h) m w = (some x, m, w)
  subscribe none topics (some h) m w =
      let (m', replay) = register topics h m [] in
      let (e, w') = replay_all h none replay w in
      if m.closed then (some broker_closed, m, w) else (e, m', w')

  unfoldable pub close : Memory → Option Err × Memory
  close m = (none, record m { closed = true })

  module _ ⦃u : Unicode⦄ ⦃c : Codec⦄ where
    unfoldable pub publish : Ctx → Text → LogEvent → Memory → W → Option Err × Memory × W
    publish (some x) topic event m w = (some x, m, w)
    publish none topic event m w = elim (marshal_event event) [
      | err x ↦ (some x, m, w)
      | ok payload ↦
          if m.closed then (some broker_closed, m, w) else publish_payload none topic payload m w
    ]
