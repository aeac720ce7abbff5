-- ===== src/Broker/Interface.antt =====
-- The types of pkg/broker/broker.go.
use apexio.Base.{ℕ, ◌≡◌, Option, none, some, List, [], ◌∷◌, ◌++◌, ok}
use apexio.Base.Text.{Text, Unicode}
use apexio.Errors.{Err, Ctx}
use apexio.Schema.Event.{LogEvent}
use apexio.Schema.Wire.{Codec, marshal_event}

pub record Message : Type 0 where
  pub topic : Text
  pub key : List ℕ
  pub value : List ℕ

-- A handler is a closure: it may change a world `W` of its own.
abbrev pub Handler : Type 0 → Type 0
Handler W = Ctx → Message → W → Option Err × W

-- The `Publisher` interface over an unknown state.
pub record Publisher : Type 1 where
  pub State : Type 0
  pub publish : Ctx → Text → LogEvent → State → Option Err × State
  pub close : State → Option Err × State

-- A message is that of an event: its bytes, for the topic, without a key.
abbrev pub Carries : ⦃u : Unicode⦄ → ⦃c : Codec⦄ → Text → LogEvent → Message → Type 0
Carries topic e msg =
    (payload : List ℕ) × (marshal_event e ≡ ok payload)
    × (msg ≡ record { topic = topic; key = []; value = payload })

abbrev pub CarriesAll : ⦃u : Unicode⦄ → ⦃c : Codec⦄ → Text → List LogEvent → List Message → Type 0
CarriesAll topic [] msgs = msgs ≡ []
CarriesAll topic (e ∷ events) [] = ⊥
CarriesAll topic (e ∷ events) (msg ∷ msgs) = Carries topic e msg × CarriesAll topic events msgs

-- What a publisher promises: the message of an event is published behind those before it, or an
-- error is given and nothing is published.
pub record IsLog ⦃u : Unicode⦄ ⦃c : Codec⦄ (P : Publisher) : Type 0 where
  pub published : P.State → List Message
  pub published-publish :
      (ctx : Ctx) (topic : Text) (e : LogEvent) (s : P.State)
      → (P.publish ctx topic e s).0 ≡ none
      → (msg : Message) × Carries topic e msg
        × (published (P.publish ctx topic e s).1 ≡ published s ++ msg ∷ [])
  pub published-publish_failed :
      (ctx : Ctx) (topic : Text) (e : LogEvent) (s : P.State) (x : Err)
      → (P.publish ctx topic e s).0 ≡ some x
      → published (P.publish ctx topic e s).1 ≡ published s
